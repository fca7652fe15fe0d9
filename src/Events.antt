-- ===== src/Events.antt =====
-- runtime/events/event_bus.py. A subscriber is a callback, known by a number; a world says whether it
-- is a coroutine function, whether a loop runs, and what a call does: to the list of the
-- subscribers, and whether it raises.
use krakey_bot.Base.{
  ℕ, Bool, ◌≡◌, ap, sym, ◌∙◌, List, [], ◌∷◌, ◌++◌, if◌then◌else◌, ◌==◌, nat_eq, Bool-cases, inl,
  inr, map,
}
use mathlib.Core.List.{append_assoc, append-nil, map-append}

abbrev pub Subscriber : Type 0
Subscriber = ℕ

-- The kinds of a delivery: a call, a call run to its end without a loop, and a task.
pub data Delivery : Type 0 where
  called run_sync scheduled : Subscriber → Delivery

pub record World : Type 0 where
  pub is_coroutine : Subscriber → Bool
  pub has_loop : Bool
  pub effect : Subscriber → List Subscriber → List Subscriber
  pub raises : Subscriber → Bool

-- `deliveries` and `quarantined` are what happened: the calls, and the exceptions that were logged.
pub record EventBus : Type 0 where
  pub subs : List Subscriber
  pub deliveries : List Delivery
  pub quarantined : List Subscriber

unfoldable pub subscribe : Subscriber → EventBus → EventBus
subscribe cb b = record b { subs = b.subs ++ cb ∷ [] }

remove : Subscriber → List Subscriber → List Subscriber
remove cb [] = []
remove cb (x ∷ xs) = let rest = remove cb xs in if x == cb then xs else x ∷ rest

unfoldable pub unsubscribe : Subscriber → EventBus → EventBus
unfolding remove
unsubscribe cb b = record b { subs = remove cb b.subs }

module _ (world : World) where
  abbrev log_failure : Subscriber → EventBus → EventBus
  log_failure cb b = record b {
    quarantined = if world.raises cb then b.quarantined ++ cb ∷ [] else b.quarantined;
  }

  -- A call that runs now, and one whose exception is the task's.
  abbrev call : Delivery → Subscriber → EventBus → EventBus
  call d cb b =
      log_failure cb
        (record b { subs = world.effect cb b.subs; deliveries = b.deliveries ++ d ∷ [] })

  unfoldable pub schedule : Subscriber → EventBus → EventBus
  schedule cb b =
      if world.has_loop
      then record b { deliveries = b.deliveries ++ scheduled cb ∷ [] }
      else call (run_sync cb) cb b

  unfoldable pub deliver : Subscriber → EventBus → EventBus
  unfolding schedule
  deliver cb b = if world.is_coroutine cb then schedule cb b else call (called cb) cb b

  -- The loop over a copy of the list.
  unfoldable pub deliver_all : List Subscriber → EventBus → EventBus
  unfolding deliver
  deliver_all [] b = b
  deliver_all (cb ∷ cbs) b = deliver_all cbs (deliver cb b)

  unfoldable pub publish : EventBus → EventBus
  unfolding deliver_all
  publish b = deliver_all b.subs b

abbrev pub receiver : Delivery → Subscriber
receiver (called cb) = cb
receiver (run_sync cb) = cb
receiver (scheduled cb) = cb

module _ (world : World) where
  deliver-receiver :
      (cb : Subscriber) (b : EventBus)
      → map receiver (deliver world cb b).deliveries ≡ map receiver b.deliveries ++ cb ∷ []
  unfolding deliver schedule
  deliver-receiver cb b = elim (Bool-cases (world.is_coroutine cb)) [
    | inl e ↦ elim (Bool-cases world.has_loop) [
      | inl l ↦ rw (e, l) (map-append receiver b.deliveries (scheduled cb ∷ []))
      | inr l ↦ rw (e, l) (map-append receiver b.deliveries (run_sync cb ∷ []))
    ]
    | inr e ↦ rw e (map-append receiver b.deliveries (called cb ∷ []))
  ]

  deliver_all-receivers :
      (cbs : List Subscriber) (b : EventBus)
      → map receiver (deliver_all world cbs b).deliveries ≡ map receiver b.deliveries ++ cbs
  unfolding deliver_all
  deliver_all-receivers [] b = sym (append-nil _)
  deliver_all-receivers (cb ∷ cbs) b =
      deliver_all-receivers cbs (deliver world cb b)
      ∙ ap (λ l. l ++ cbs) (deliver-receiver cb b)
      ∙ append_assoc (map receiver b.deliveries) (cb ∷ []) cbs

  -- An event goes to every callback that was subscribed when it was published, in order and as often
  -- as it was subscribed, whichever of them raise and whatever they subscribe or unsubscribe.
  pub publish-receivers :
      (b : EventBus)
      → map receiver (publish world b).deliveries ≡ map receiver b.deliveries ++ b.subs
  unfolding publish
  publish-receivers b = deliver_all-receivers b.subs b
