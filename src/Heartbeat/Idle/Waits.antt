-- ===== src/Heartbeat/Idle/Waits.antt =====
-- What a wait leaves in the queue, and what an idle wait hands to the recall.
use krakey_bot.Base.{
  ℕ, ◌≤◌, ◌≡◌, refl, ap, sym, ◌∙◌, Bool, true, false, List, [], ◌∷◌, ◌++◌, if◌then◌else◌, if-both,
  if-split, Bool-clash, ltb, length, take, drop, is_empty, take-append-drop, take-append_le,
  take-all, length-append, Bool-cases, inl, inr, arith,
}
use mathlib.Core.List.{append_assoc, append-nil}
use krakey_bot.Stimuli.{Stimulus}
use krakey_bot.Stimuli.Buffer.{Buffer, push, peek_unrecalled, has_adrenalin, pushes, step}
use krakey_bot.Stimuli.Buffer.Flags.{urgent, IsValid, step-IsValid}
use krakey_bot.Heartbeat.Idle.{
  Slice, push_all, asleep, wait_slices, wait_or_adrenalin, Idle, feed, idle_slices,
  idle_with_recall,
}

push_all-queue : (l : List Stimulus) (b : Buffer) → (push_all l b).queue ≡ b.queue ++ l
unfolding push_all push
push_all-queue [] b = sym (append-nil b.queue)
push_all-queue (s ∷ l) b = push_all-queue l (push s b) ∙ append_assoc b.queue (s ∷ []) l

push_all-mark : (l : List Stimulus) (b : Buffer) → (push_all l b).recalled_up_to ≡ b.recalled_up_to
unfolding push_all push
push_all-mark [] b = refl
push_all-mark (s ∷ l) b = push_all-mark l (push s b)

-- The batches, one behind the other.
abbrev pub joined : List (List Stimulus) → List Stimulus
joined [] = []
joined (l ∷ ls) = l ++ joined ls

joined-append :
    (ls : List (List Stimulus)) (l : List Stimulus) → joined (ls ++ l ∷ []) ≡ joined ls ++ l
joined-append [] l = append-nil l
joined-append (k ∷ ls) l =
    ap (λ t. k ++ t) (joined-append ls l) ∙ sym (append_assoc k (joined ls) l)

push_all-IsValid : (l : List Stimulus) (b : Buffer) → IsValid b → IsValid (push_all l b)
unfolding push_all step
push_all-IsValid [] b v = v
push_all-IsValid (s ∷ l) b v = push_all-IsValid l (push s b) (step-IsValid b (pushes s) v)

-- What a wait leaves, from `b` on, with its answer.
pub record IsWait (b : Buffer) (rc : Bool × Buffer) : Type 0 where
  pub arrived : List Stimulus
  pub queue : rc.1.queue ≡ b.queue ++ arrived
  pub mark : rc.1.recalled_up_to ≡ b.recalled_up_to
  pub answer : (if rc.0 then urgent rc.1.queue else true) ≡ true

wait_slices-IsWait :
    (slices : List Slice) (b : Buffer) → IsValid b → IsWait b (wait_slices slices b)
unfolding wait_slices
wait_slices-IsWait [] b v = record {
  arrived = [];
  queue = sym (append-nil b.queue);
  mark = refl;
  answer = refl;
}
wait_slices-IsWait (t ∷ rest) b v =
    let c = push_all t.arrives b in
    let w = push_all-IsValid t.arrives b v in
    let d = push_all (asleep t) c in
    let r = wait_slices-IsWait rest d (push_all-IsValid (asleep t) c w) in
    elim (Bool-cases (has_adrenalin c)) [
      | inl e ↦ rw e (record {
        arrived = t.arrives;
        queue = push_all-queue t.arrives b;
        mark = push_all-mark t.arrives b;
        answer = sym w.adrenalin ∙ e;
      })
      | inr e ↦ rw e (record {
        arrived = t.arrives ++ (asleep t ++ r.arrived);
        queue =
            r.queue
            ∙ ap (λ l. l ++ r.arrived) (push_all-queue (asleep t) c)
            ∙ append_assoc c.queue (asleep t) r.arrived
            ∙ ap (λ l. l ++ (asleep t ++ r.arrived)) (push_all-queue t.arrives b)
            ∙ append_assoc b.queue t.arrives _;
        mark = r.mark ∙ push_all-mark (asleep t) c ∙ push_all-mark t.arrives b;
        answer = r.answer;
      })
    ]

-- A wait drains nothing and leaves the recall mark. It is interrupted only where an urgent stimulus
-- is queued, and always where one is queued at its start.
pub wait_or_adrenalin_lem :
    (seconds : ℕ) (slices : List Slice) (b : Buffer)
    → IsValid b
    → IsWait b (wait_or_adrenalin seconds slices b)
      × ((if urgent b.queue then (wait_or_adrenalin seconds slices b).0 else true) ≡ true)
unfolding wait_or_adrenalin
wait_or_adrenalin_lem seconds slices b v =
    if-split Done (has_adrenalin b) _ _
      (λ e. (stays true (sym v.adrenalin ∙ e), asked true (λ u. refl)))
      λ e.
        if-both Done (ltb 0 seconds) _ _ (wait_slices-IsWait slices b v, asked _ (λ u. calm e u))
          (stays false refl, asked _ (λ u. calm e u))
  where
    Done : Bool × Buffer → Type 0
    Done rc = IsWait b rc × ((if urgent b.queue then rc.0 else true) ≡ true)

    calm : {P : Type 0} → has_adrenalin b ≡ false → urgent b.queue ≡ true → P
    calm e u = Bool-clash (v.adrenalin ∙ u) e

    asked :
        (r : Bool)
        → (urgent b.queue ≡ true → r ≡ true)
        → (if urgent b.queue then r else true) ≡ true
    asked r h = if-split (λ x. x ≡ true) (urgent b.queue) r true h (λ _. refl)

    stays : (r : Bool) → (if r then urgent b.queue else true) ≡ true → IsWait b (r, b)
    stays r h = record { arrived = []; queue = sym (append-nil b.queue); mark = refl; answer = h }

-- What was fed, behind what was recalled before, is the queue up to the mark.
record IsFed (p : List Stimulus) (i : Idle) : Type 0 where
  within : i.buffer.recalled_up_to ≤ length i.buffer.queue
  fed : p ++ joined i.fed ≡ take i.buffer.recalled_up_to i.buffer.queue

arrive-IsFed :
    (p l : List Stimulus) (i : Idle)
    → IsFed p i
    → IsFed p (record i { buffer = push_all l i.buffer })
arrive-IsFed p l i v = record {
  within =
      rw (push_all-queue, push_all-mark) (omega (arith, v.within, length-append i.buffer.queue l));
  fed =
      rw (push_all-queue, push_all-mark)
        (v.fed ∙ sym (take-append_le i.buffer.recalled_up_to i.buffer.queue l v.within));
}

feed-IsFed : (p : List Stimulus) (i : Idle) → IsFed p i → IsFed p (feed i)
unfolding feed peek_unrecalled
feed-IsFed p i v = record {
  within = omega arith;
  fed = go (drop i.buffer.recalled_up_to i.buffer.queue) refl;
}
  where
    whole : (p ++ joined i.fed) ++ drop i.buffer.recalled_up_to i.buffer.queue ≡ i.buffer.queue
    whole =
        ap (λ l. l ++ drop i.buffer.recalled_up_to i.buffer.queue) v.fed
        ∙ take-append-drop i.buffer.recalled_up_to i.buffer.queue

    go :
        (new : List Stimulus)
        → drop i.buffer.recalled_up_to i.buffer.queue ≡ new
        → p ++ joined (if is_empty new then i.fed else i.fed ++ new ∷ [])
          ≡ take (length i.buffer.queue) i.buffer.queue
    go [] e =
        sym (append-nil _)
        ∙ ap (λ l. (p ++ joined i.fed) ++ l) (sym e)
        ∙ whole
        ∙ sym (take-all i.buffer.queue)
    go (s ∷ l) e =
        ap (λ k. p ++ k) (joined-append i.fed (s ∷ l))
        ∙ sym (append_assoc p (joined i.fed) (s ∷ l))
        ∙ ap (λ k. (p ++ joined i.fed) ++ k) (sym e)
        ∙ whole
        ∙ sym (take-all i.buffer.queue)

idle_slices-IsFed :
    (p : List Stimulus) (slices : List Slice) (i : Idle)
    → IsFed p i
    → IsFed p (idle_slices slices i)
unfolding idle_slices
idle_slices-IsFed p [] i v = v
idle_slices-IsFed p (t ∷ rest) i v =
    let arrived : Idle = record i { buffer = push_all t.arrives i.buffer } in
    let w = arrive-IsFed p t.arrives i v in
    let fed : Idle = record (feed arrived) {
      buffer = push_all t.arrives_asleep (feed arrived).buffer;
    } in
    let v : IsFed p fed = arrive-IsFed p t.arrives_asleep (feed arrived) (feed-IsFed p arrived w) in
    if-both (IsFed p) t.timed_out _ _ (idle_slices-IsFed p rest arrived w)
      (if-both (IsFed p) (has_adrenalin fed.buffer) _ _ v (idle_slices-IsFed p rest fed v))

-- An idle wait hands to the recall, in order and once each, the stimuli that stood behind the recall
-- mark or arrived, up to the mark that it leaves: put behind those recalled before, they are the
-- queue up to that mark.
pub idle_with_recall_lem :
    (slices : List Slice) (b : Buffer)
    → b.recalled_up_to ≤ length b.queue
    → let i = idle_with_recall slices b in
      (i.buffer.recalled_up_to ≤ length i.buffer.queue)
      × (take b.recalled_up_to b.queue ++ joined i.fed
          ≡ take i.buffer.recalled_up_to i.buffer.queue)
unfolding idle_with_recall
idle_with_recall_lem slices b h =
    let i : Idle = record { fed = []; buffer = b } in
    let p = take b.recalled_up_to b.queue in
    let v : IsFed p i = record { within = h; fed = append-nil p } in
    let w =
      if-both (IsFed p) (has_adrenalin b) _ _ (feed-IsFed p i v) (idle_slices-IsFed p slices i v) in
    (w.within, w.fed)
