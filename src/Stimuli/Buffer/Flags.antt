-- ===== src/Stimuli/Buffer/Flags.antt =====
-- The two events say what the queue holds, whatever the producers and the heartbeat do.
use krakey_bot.Base.{
  ◌≤◌, ◌≡◌, Bool, List, [], ◌∷◌, length, length-append, ltb, any, any-append, arith,
}
use krakey_bot.Stimuli.{Stimulus}
use krakey_bot.Stimuli.Buffer.{Buffer, Call, empty, pushes, drains, peeks, has_adrenalin, step, run}

abbrev pub urgent : List Stimulus → Bool
urgent = any (λ s. s.adrenalin)

-- The adrenalin event is set exactly while an urgent stimulus is queued, the other one exactly
-- while some stimulus has not been peeked at.
pub record IsValid (b : Buffer) : Type 0 where
  pub within : b.recalled_up_to ≤ length b.queue
  pub adrenalin : has_adrenalin b ≡ urgent b.queue
  pub unseen : b.new_event ≡ ltb b.recalled_up_to (length b.queue)

pub step-IsValid : (b : Buffer) (c : Call) → IsValid b → IsValid (step b c)
unfolding step has_adrenalin
step-IsValid b (pushes s) v =
    ground (arith, length-append b.queue (s ∷ []), any-append (λ t. t.adrenalin) b.queue (s ∷ []))
step-IsValid b drains v = ground arith
step-IsValid b peeks v = ground arith

run-IsValid : (b : Buffer) (cs : List Call) → IsValid b → IsValid (run b cs)
unfolding run
run-IsValid b [] v = v
run-IsValid b (c ∷ cs) v = run-IsValid (step b c) cs (step-IsValid b c v)

-- After any sequence of pushes, drains and peeks on a new buffer, the recall mark lies within
-- the queue, `has_adrenalin` answers whether an urgent stimulus is queued, and the
-- other event is set exactly when a stimulus is queued behind the mark.
pub run-empty-IsValid : (cs : List Call) → IsValid (run empty cs)
unfolding has_adrenalin
run-empty-IsValid cs =
    run-IsValid empty cs
      (record { within = omega arith; adrenalin = ground arith; unseen = ground arith })
