-- ===== src/Dispatch/Progress.antt =====
-- What holds of a batch while its tasks run, and that the end of a call keeps it.
use krakey_bot.Base.{
  String, Bool, true, false, ◌≡◌, refl, ap, sym, ◌∙◌, List, [], ◌∷◌, ◌++◌, some, elem, elem-append,
  elem-discard, Distinct, is_empty, is_empty-ext, none_of_empty, discard, inl, inr, Bool-cases,
  Bool-clash, ==_iff, string_eq, arith,
}
use mathlib.Core.List.{append_assoc}
use krakey_bot.Stimuli.{Stimulus}
use krakey_bot.Stimuli.BatchTracker.{BatchTracker, batch_complete}
use krakey_bot.Stimuli.BatchTracker.Completion.{mark_silent, mark_wakes}
use krakey_bot.Dispatch.{
  Dispatcher, Task, done, Delivery, feedback, wake_up, Stamps, ids, set_phase, find_task, deliver,
  push_feedback, wake, complete, enter, settle,
}
use krakey_bot.Dispatch.Tasks.{
  is_done, finished, unfinished, ids-set_phase, unfinished-done, finished-done, found_unfinished,
}

-- The calls that have had their feedback, in the order of the pushes.
abbrev pub answered : List Delivery → List String
answered [] = []
answered (feedback id s ∷ ds) = id ∷ answered ds
answered (wake_up s ∷ ds) = answered ds

-- No wake-up, and one wake-up, which is the last delivery.
abbrev pub is_silent : List Delivery → Bool
is_silent [] = true
is_silent (feedback id s ∷ ds) = is_silent ds
is_silent (wake_up s ∷ ds) = false

abbrev pub ends_awake : List Delivery → Bool
ends_awake [] = false
ends_awake (feedback id s ∷ ds) = ends_awake ds
ends_awake (wake_up s ∷ ds) = is_empty ds

answered-append : (ds es : List Delivery) → answered (ds ++ es) ≡ answered ds ++ answered es
answered-append [] es = refl
answered-append (feedback id s ∷ ds) es = ap (λ l. id ∷ l) (answered-append ds es)
answered-append (wake_up s ∷ ds) es = answered-append ds es

is_silent-append :
    (ds : List Delivery) (id : String) (s : Stimulus)
    → is_silent (ds ++ feedback id s ∷ []) ≡ is_silent ds
is_silent-append [] id s = refl
is_silent-append (feedback j t ∷ ds) id s = is_silent-append ds id s
is_silent-append (wake_up t ∷ ds) id s = refl

ends_awake-append :
    (ds : List Delivery) (id : String) (s w : Stimulus)
    → is_silent ds ≡ true
    → ends_awake (ds ++ feedback id s ∷ wake_up w ∷ []) ≡ true
ends_awake-append [] id s w h = refl
ends_awake-append (feedback j t ∷ ds) id s w h = ends_awake-append ds id s w h
ends_awake-append (wake_up t ∷ ds) id s w h = cc

Distinct-append :
    (a : String) (l : List String) → Distinct l → elem a l ≡ false → Distinct (l ++ a ∷ [])
Distinct-append a [] d h = (refl, tt)
Distinct-append a (b ∷ l) d h = (
  ground (arith, d.0, elem-append b l (a ∷ []), ==_iff a b, ==_iff b a),
  Distinct-append a l d.1 (ground arith),
)

-- What holds of a batch at each point of its schedule.
pub record Progress (d : Dispatcher) : Type 0 where
  pub connected : d.tracker.connected ≡ true
  pub distinct : Distinct (ids d.tasks)
  pub out : (a : String) → elem a d.tracker.pending ≡ elem a (unfinished d.tasks)
  pub sent : (a : String) → elem a (answered d.deliveries) ≡ elem a (finished d.tasks)
  pub once : Distinct (answered d.deliveries)
  pub silent : is_empty (unfinished d.tasks) ≡ false → is_silent d.deliveries ≡ true
  pub awake :
      is_empty (unfinished d.tasks) ≡ true
      → is_empty (ids d.tasks) ≡ false
      → ends_awake d.deliveries ≡ true

module _ (stamps : Stamps) (t : Task) (s : Stimulus) (d : Dispatcher) (p : Progress d)
    (found : find_task t.call_id d.tasks ≡ some t) (live : is_done t.phase ≡ false) where
  abbrev rest : List Task
  rest = set_phase t.call_id done d.tasks

  abbrev facts :
      (elem t.call_id (ids d.tasks) ≡ true)
      × (elem t.call_id (unfinished d.tasks) ≡ true)
      × (elem t.call_id (finished d.tasks) ≡ false)
  facts = let (_, a, b, c) = found_unfinished t.call_id d.tasks t p.distinct found live in (a, b, c)

  is_out : elem t.call_id d.tracker.pending ≡ true
  is_out = p.out t.call_id ∙ facts.1

  left-unfinished :
      (a : String) → elem a (discard t.call_id d.tracker.pending) ≡ elem a (unfinished rest)
  left-unfinished a = ground (
    arith,
    elem-discard a t.call_id d.tracker.pending,
    unfinished-done a t.call_id d.tasks,
    p.out a,
  )

  abbrev id : String
  id = t.call_id

  abbrev left : BatchTracker
  left = record d.tracker { pending = discard id d.tracker.pending }

  abbrev with_feedback : List Delivery
  with_feedback = d.deliveries ++ feedback id s ∷ []

  sent_after :
      (ds : List Delivery)
      → answered ds ≡ answered d.deliveries ++ id ∷ []
      → (a : String) → elem a (answered ds) ≡ elem a (finished rest)
  sent_after ds e a = rw e (
      ground (
        arith,
        elem-append a (answered d.deliveries) (id ∷ []),
        finished-done a id d.tasks,
        p.sent a,
        ==_iff id a,
        facts.0,
      ))

  once_after :
      (ds : List Delivery) → answered ds ≡ answered d.deliveries ++ id ∷ [] → Distinct (answered ds)
  once_after ds e = rw e (Distinct-append id (answered d.deliveries) p.once (p.sent id ∙ facts.2))

  was_silent : is_silent d.deliveries ≡ true
  was_silent = p.silent (
      ground (
        arith,
        λ (e : is_empty (unfinished d.tasks) ≡ true). none_of_empty (unfinished d.tasks) e id,
        facts.1,
      ))

  abbrev with_both : List Delivery
  with_both = with_feedback ++ wake_up (batch_complete stamps.wake) ∷ []

  answered_both : answered with_both ≡ answered d.deliveries ++ id ∷ []
  answered_both = rw append_assoc (answered-append d.deliveries _)

  answered_feedback : answered with_feedback ≡ answered d.deliveries ++ id ∷ []
  answered_feedback = answered-append d.deliveries (feedback id s ∷ [])

  pub settle-Progress : Progress (settle stamps t s d)
  unfolding settle complete wake push_feedback enter deliver
  settle-Progress = elim (Bool-cases (is_empty (discard id d.tracker.pending))) [
    | inl e ↦ rw (mark_wakes stamps.wake id d.tracker is_out p.connected e) (record {
      connected = p.connected;
      distinct = rw ids-set_phase p.distinct;
      out = left-unfinished;
      sent = sent_after with_both answered_both;
      once = once_after with_both answered_both;
      silent = λ more. Bool-clash (sym (is_empty-ext _ _ left-unfinished) ∙ e) more;
      awake = λ _ _. rw append_assoc (ends_awake-append d.deliveries id s _ was_silent);
    })
    | inr e ↦ rw (mark_silent stamps.wake id d.tracker is_out e) (record {
      connected = p.connected;
      distinct = rw ids-set_phase p.distinct;
      out = left-unfinished;
      sent = sent_after with_feedback answered_feedback;
      once = once_after with_feedback answered_feedback;
      silent = λ _. is_silent-append d.deliveries id s ∙ was_silent;
      awake = λ none_left _. Bool-clash (is_empty-ext _ _ left-unfinished ∙ none_left) e;
    })
  ]
