-- ===== src/Stimuli/Buffer/History.antt =====
-- What the queue delivers over a run: every stimulus once, in the order of its time.
use mathlib.Core.List.{Perm, append_assoc, append-nil}
use mathlib.Core.List.Perm
use krakey_bot.Base.{
  ℕ, ◌≤◌, ◌≡◌, refl, sym, ◌∙◌, List, [], ◌∷◌, ◌++◌, length, take, length-append, take-append-drop,
  take-append_le, take-all, keep, nat_beq, arith,
}
use krakey_bot.Base.Sort.{sort_by-perm, sort_by-IsSorted, keep-sort_by, IsSorted}
use krakey_bot.Stimuli.{Stimulus}
use krakey_bot.Stimuli.Buffer.{
  Buffer, Call, empty, pushes, drains, peeks, drain, peek_unrecalled, step, run,
}

abbrev pub time : Stimulus → ℕ
time s = s.timestamp

-- A drain returns what was queued, ordered by time, with simultaneous stimuli in the
-- order of their arrival, and leaves a buffer on which nothing is queued or recalled.
pub drain_lem :
    (b : Buffer)
    → Perm (drain b).0 b.queue
      × IsSorted time (drain b).0
      × ((t : ℕ)
          → keep (λ s. nat_beq (time s) t) (drain b).0 ≡ keep (λ s. nat_beq (time s) t) b.queue)
      × ((drain b).1 ≡ empty)
unfolding drain
drain_lem b = (
  sort_by-perm time b.queue,
  sort_by-IsSorted time b.queue,
  λ t. keep-sort_by time t b.queue,
  refl,
)

-- What the calls push, and what the drains among them return.
pub pushed : List Call → List Stimulus
pushed [] = []
pushed (pushes s ∷ cs) = s ∷ pushed cs
pushed (_ ∷ cs) = pushed cs

pub drained : Buffer → List Call → List Stimulus
drained b [] = []
drained b (drains ∷ cs) = (drain b).0 ++ drained (drain b).1 cs
drained b (c ∷ cs) = drained (step b c) cs

-- Whatever the order of the calls: what was drained, with what is still queued, is what was queued
-- at first and what was pushed. No stimulus is lost, doubled or made up.
pub drained-perm :
    (b : Buffer) (cs : List Call) → Perm (drained b cs ++ (run b cs).queue) (b.queue ++ pushed cs)
unfolding drained pushed run step
drained-perm b [] = rw append-nil (Perm.refl _)
drained-perm b (pushes s ∷ cs) =
    rw (append_assoc b.queue (s ∷ []) (pushed cs)) at (drained-perm (step b (pushes s)) cs)
drained-perm b (drains ∷ cs) =
    rw append_assoc (Perm.append (sort_by-perm time b.queue) (drained-perm (drain b).1 cs))
drained-perm b (peeks ∷ cs) = drained-perm (step b peeks) cs

-- What the peeks since the last drain returned, from `seen` on.
pub peeked : List Stimulus → Buffer → List Call → List Stimulus
peeked seen b [] = seen
peeked seen b (peeks ∷ cs) = peeked (seen ++ (peek_unrecalled b).0) (step b peeks) cs
peeked seen b (drains ∷ cs) = peeked [] (step b drains) cs
peeked seen b (pushes s ∷ cs) = peeked seen (step b (pushes s)) cs

peeked-take :
    (seen : List Stimulus) (b : Buffer) (cs : List Call)
    → b.recalled_up_to ≤ length b.queue
    → seen ≡ take b.recalled_up_to b.queue
    → peeked seen b cs ≡ take (run b cs).recalled_up_to (run b cs).queue
unfolding peeked run step
peeked-take seen b [] h e = e
peeked-take seen b (pushes s ∷ cs) h e =
    peeked-take seen (step b (pushes s)) cs (omega (arith, length-append b.queue (s ∷ [])))
      (e ∙ sym (take-append_le b.recalled_up_to b.queue (s ∷ []) h))
peeked-take seen b (drains ∷ cs) h e = peeked-take [] (step b drains) cs (omega arith) refl
peeked-take seen b (peeks ∷ cs) h e =
    peeked-take _ (step b peeks) cs (omega arith)
      (rw (e, take-append-drop b.recalled_up_to b.queue, take-all b.queue) refl)

-- The peeks since the last drain have together returned the queue up to the recall mark, in order:
-- an idle wait hands each stimulus to the recall at most once, and leaves out none in between.
pub peeked-eq-take :
    (cs : List Call) → peeked [] empty cs ≡ take (run empty cs).recalled_up_to (run empty cs).queue
peeked-eq-take cs = peeked-take [] empty cs (omega arith) refl
