-- ===== src/Sleep/Cycle.antt =====
-- When a sleep runs, and who hears of it: `request_sleep` and `_maybe_auto_sleep` of
-- engines/memory/default.py, and `trigger_memory_sleep` of runtime/runtime.py. A cycle has one long wait,
-- the pipeline, so a call is two turns: one that enters it and one that ends it. Other calls
-- may come between. The subscribers of the events are left out.
pub mod Coalesced
use krakey_bot.Base.{
  ℕ, zero, suc, ◌+◌, String, Bool, true, false, not, ◌&&◌, ◌||◌, List, [], ◌∷◌, ◌++◌, Option, none,
  some, length, if◌then◌else◌, ltb, leb, ◌==◌, string_eq, nat_eq,
}
use krakey_bot.Base.Text.{concat}
use krakey_bot.Base.Action.{Outcome, returned, raised}
use krakey_bot.Stimuli.{Stimulus, Stamp}
use krakey_bot.Stimuli.Buffer.{Buffer, push}
use krakey_bot.Stimuli.Buffer

pub data Lifecycle : Type 0 where
  sleep_start : (reason : String) → Lifecycle
  sleep_done : Lifecycle
  sleep_failed : (reason error : String) → Lifecycle

-- A call of `request_sleep` that is in its pipeline: from the runtime, or from a write to the memory.
pub data Request : Type 0 where
  from_runtime : (reason : String) → Request
  from_storage : Request

-- `sleeping` and `cycles_run` are the engine's, `sessions` counts the calls of `new_session`.
pub record State : Type 0 where
  pub sleeping : Bool
  pub cycles_run : ℕ
  pub in_flight : List Request
  pub events : List Lifecycle
  pub buffer : Buffer
  pub sleep_cycles : ℕ
  pub sessions : ℕ

abbrev pub init : State
init = record {
  sleeping = false;
  cycles_run = 0;
  in_flight = [];
  events = [];
  buffer = Buffer.empty;
  sleep_cycles = 0;
  sessions = 0;
}

abbrev pub system_event : Stamp → Bool → String → Stimulus
system_event stamp adrenalin content = record {
  ident = stamp.ident;
  type = "system_event";
  source = "system:sleep";
  content = content;
  timestamp = stamp.now;
  adrenalin = adrenalin;
}

abbrev pub failure_text : String → String
failure_text error = concat (
    "Sleep transition failed: " ∷ error
    ∷ ". Runtime is continuing without entering sleep state. The memory engine's consolidation did not complete; check the runtime stderr for details."
    ∷ [])

abbrev pub wake_text : String → String
wake_text reason =
    if reason == ""
    then "Completed a sleep cycle."
    else concat ("Completed a sleep cycle (" ∷ reason ∷ ")." ∷ [])

-- The engine's part up to the pipeline: a request while one is in flight is dropped.
unfoldable pub request_sleep : (has_llm : Bool) → Request → State → State
request_sleep has_llm r s =
    if not has_llm || s.sleeping
    then s
    else record s { sleeping = true; in_flight = r ∷ s.in_flight }

unfoldable pub maybe_auto_sleep :
    (has_llm : Bool) → (threshold : ℕ) → (node_count : ℕ) → State → State
unfolding request_sleep
maybe_auto_sleep has_llm threshold node_count s =
    if leb threshold 0 || (s.sleeping || not has_llm)
    then s
    else if leb threshold node_count
    then request_sleep has_llm from_storage s
    else s

-- What the caller does with the end of its request; a raised error has its text.
unfoldable pub hear : Stamp → Request → Outcome String (Unit {0}) → State → State
unfolding push
hear stamp from_storage o s = s
hear stamp (from_runtime reason) (raised error) s = record s {
  events = s.events ++ sleep_failed reason error ∷ [];
  buffer = push (system_event stamp true (failure_text error)) s.buffer;
}
hear stamp (from_runtime reason) (returned u) s = record s {
  events = s.events ++ sleep_start reason ∷ sleep_done ∷ [];
  sleep_cycles = suc s.sleep_cycles;
  buffer = push (system_event stamp false (wake_text reason)) s.buffer;
  sessions = suc s.sessions;
}

abbrev pub count_run : Outcome String (Unit {0}) → ℕ → ℕ
count_run (returned u) n = suc n
count_run (raised x) n = n

abbrev pub request_at : ℕ → List Request → Option Request
request_at n [] = none
request_at zero (r ∷ rs) = some r
request_at (suc n) (r ∷ rs) = request_at n rs

abbrev pub remove_at : ℕ → List Request → List Request
remove_at n [] = []
remove_at zero (r ∷ rs) = rs
remove_at (suc n) (r ∷ rs) = r ∷ remove_at n rs

-- The end of the pipeline of a request in flight.
unfoldable pub end_request : Stamp → ℕ → Outcome String (Unit {0}) → State → State
unfolding hear
end_request stamp n o s = elim (request_at n s.in_flight) [
  | none ↦ s
  | some r ↦ hear stamp r o (record s {
    sleeping = false;
    cycles_run = count_run o s.cycles_run;
    in_flight = remove_at n s.in_flight;
  })
]

pub data Turn : Type 0 where
  trigger : (reason : String) → Turn
  stores : (node_count : ℕ) → Turn
  ends : Stamp → ℕ → Outcome String (Unit {0}) → Turn

unfoldable pub turn : (has_llm : Bool) → (threshold : ℕ) → Turn → State → State
unfolding request_sleep maybe_auto_sleep end_request
turn has_llm threshold (trigger reason) s = request_sleep has_llm (from_runtime reason) s
turn has_llm threshold (stores n) s = maybe_auto_sleep has_llm threshold n s
turn has_llm threshold (ends stamp n o) s = end_request stamp n o s

unfoldable pub run : (has_llm : Bool) → (threshold : ℕ) → List Turn → State → State
unfolding turn
run has_llm threshold [] s = s
run has_llm threshold (t ∷ ts) s = run has_llm threshold ts (turn has_llm threshold t s)
