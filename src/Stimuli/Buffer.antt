-- ===== src/Stimuli/Buffer.antt =====
-- runtime/stimuli/stimulus_buffer.py, the queue: `_queue`, `_recalled_up_to` and the two events.
-- An `asyncio.Event` is the flag that `wait()` waits for.
pub mod Flags
pub mod History
use krakey_bot.Base.{ℕ, Bool, true, false, List, [], ◌∷◌, ◌++◌, length, drop, if◌then◌else◌}
use krakey_bot.Base.Sort.{sort_by}
use krakey_bot.Stimuli.{Stimulus}

pub record Buffer : Type 0 where
  pub queue : List Stimulus
  pub recalled_up_to : ℕ
  pub adrenalin_event : Bool
  pub new_event : Bool

abbrev pub empty : Buffer
empty = record { queue = []; recalled_up_to = 0; adrenalin_event = false; new_event = false }

unfoldable pub push : Stimulus → Buffer → Buffer
push s b = record b {
  queue = b.queue ++ s ∷ [];
  new_event = true;
  adrenalin_event = if s.adrenalin then true else b.adrenalin_event;
}

unfoldable pub drain : Buffer → List Stimulus × Buffer
drain b = (
  sort_by (λ s. s.timestamp) b.queue,
  record b { queue = []; recalled_up_to = 0; adrenalin_event = false; new_event = false },
)

unfoldable pub peek_unrecalled : Buffer → List Stimulus × Buffer
peek_unrecalled b =
    (drop b.recalled_up_to b.queue, record b { recalled_up_to = length b.queue; new_event = false })

unfoldable pub has_adrenalin : Buffer → Bool
has_adrenalin b = b.adrenalin_event

-- What producers and the heartbeat do with the queue, in the order of their turns.
pub data Call : Type 0 where
  pushes : Stimulus → Call
  drains : Call
  peeks : Call

unfoldable pub step : Buffer → Call → Buffer
unfolding push drain peek_unrecalled
step b (pushes s) = push s b
step b drains = (drain b).1
step b peeks = (peek_unrecalled b).1

unfoldable pub run : Buffer → List Call → Buffer
run b [] = b
run b (c ∷ cs) = run (step b c) cs
