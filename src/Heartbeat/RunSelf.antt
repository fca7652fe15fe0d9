-- ===== src/Heartbeat/RunSelf.antt =====
-- engines/heartbeat/orchestrator.py: `_phase_run_self` from its loop on, `_reassemble_on_adrenalin` and
-- `_raw_requests_builtin_sleep`. A round of the loop is one call of the model, and one wait where
-- the call fails; the recall, the prompt, and what others do to the runtime in the meantime
-- are a world, asked by the number of the round.
pub mod Rounds
pub mod Waits
use Prim.Native.Char.{Char}
use krakey_bot.Base.{
  ℕ, zero, suc, ◌+◌, String, Bool, true, false, not, ◌&&◌, ◌||◌, List, [], ◌∷◌, ◌++◌, Option, none,
  some, any, elem, if◌then◌else◌, leb, ◌==◌, string_eq,
}
use krakey_bot.Base.Strip.{strip}
use krakey_bot.Base.Action.{Outcome, returned, raised}
use krakey_bot.Json.{Json, str, obj, get}
use krakey_bot.Blocks.{exact, blocks}
use krakey_bot.ToolCalls.{LoadError, Python}
use krakey_bot.SelfOutput.{ParsedSelfOutput, parse_self_output}
use krakey_bot.Stimuli.{Stimulus, Stamp}
use krakey_bot.Stimuli.Buffer.{Buffer, drain}
use krakey_bot.Heartbeat.Commands
use krakey_bot.Heartbeat.Commands.{
  Command, Runtime, Phase, kill_action, sleep_action, no_action, phase_handle_commands,
}
use krakey_bot.Heartbeat.Idle.{Slice, wait_or_adrenalin}

-- The times of config.idle.
pub record IdleConfig : Type 0 where
  pub llm_failure_retry_interval : ℕ
  pub struct_output_fast_retries : ℕ
  pub struct_output_slow_retry_interval : ℕ

-- A raised error has a text for its exception.
pub record World : Type 0 where
  pub chat : ℕ → String → Outcome String String
  pub in_chat : ℕ → Runtime → Runtime
  pub slices : ℕ → List Slice
  pub stops_in_wait : ℕ → Bool
  pub report : ℕ → ℕ → Command → Outcome Commands.Error String
  pub stamps : ℕ → ℕ → Stamp
  pub rebuild : ℕ → List Stimulus → Outcome String String
  pub memory_sleep : ℕ → Runtime → Outcome String Runtime

-- A wait of the loop, and whether it was cut short by an urgent stimulus.
pub record Wait : Type 0 where
  pub structural : Bool
  pub delay : ℕ
  pub interrupted : Bool

-- `round` is the number of rounds that are over; `waits` are theirs, the last one first.
pub record State : Type 0 where
  pub runtime : Runtime
  pub stimuli : List Stimulus
  pub prompt : String
  pub http_attempt : ℕ
  pub struct_attempt : ℕ
  pub round : ℕ
  pub waits : List Wait

-- How the loop ends: with an answer, with None, or by a raise.
pub data Result : Type 0 where
  answered : (raw : String) → ParsedSelfOutput → Result
  abandoned failed : Result

pub data Step : Type 0 where
  finished : Result → State → Step
  again : State → Step

module _ (python : Python) (digit : Char → Option ℕ) where
  abbrev names_sleep : Outcome LoadError Json → Bool
  unfolding get
  names_sleep (returned (obj d)) = elim (get "name" d) [
    | some (str name) ↦ name == "sleep"
    | _ ↦ false
  ]
  names_sleep _ = false

  unfoldable pub raw_requests_builtin_sleep : String → Bool
  unfolding blocks strip names_sleep
  raw_requests_builtin_sleep raw =
      any (λ b. names_sleep (python.loads (strip b))) (blocks exact raw)

  -- `not missing`
  unfoldable pub is_complete : String → ParsedSelfOutput → Bool
  unfolding raw_requests_builtin_sleep
  is_complete raw parsed =
      elem "THINKING" parsed.found_tags
      && elem "DECISION" parsed.found_tags
      && (raw_requests_builtin_sleep raw || elem "IDLE" parsed.found_tags)

  module _ (config : IdleConfig) (world : World) where
    abbrev folded : Outcome String String → List Stimulus → State → Step
    folded (raised x) stimuli s = finished failed s
    folded (returned prompt) stimuli s =
        again
          (record s { stimuli = stimuli; prompt = prompt; http_attempt = 0; struct_attempt = 0 })

    abbrev slept : Outcome String Runtime → State → Step
    slept (raised x) s = finished failed s
    slept (returned rt) s = finished abandoned (record s { runtime = rt })

    abbrev commanded : Outcome Commands.Error Phase → State → Step
    commanded (raised x) s = finished failed s
    commanded (returned p) s = elim p.triggered [
      | some kill_action ↦ finished abandoned s
      | some sleep_action ↦ slept (world.memory_sleep s.round s.runtime) s
      | some no_action ↦
          folded (world.rebuild s.round (s.stimuli ++ p.filtered)) (s.stimuli ++ p.filtered) s
      | none ↦ folded (world.rebuild s.round (s.stimuli ++ p.filtered)) (s.stimuli ++ p.filtered) s
    ]

    -- What others do to the runtime while it awaits the recall is left out: `rebuild` gives the prompt,
    -- and changes neither the queue nor the stop flag.
    unfoldable pub reassemble_on_adrenalin : State → Step
    unfolding drain phase_handle_commands
    reassemble_on_adrenalin s =
        let (new, buffer) = drain s.runtime.buffer in
        let (o, rt) =
          phase_handle_commands (world.report s.round) (world.stamps s.round) new
            (record s.runtime { buffer = buffer }) in
        commanded o (record s { runtime = rt })

    -- The state behind a wait.
    abbrev pub waited : (structural : Bool) → (delay : ℕ) → Bool × Buffer → State → State
    waited structural delay (interrupted, buffer) s = record s {
      runtime = record {
        buffer = buffer;
        stopped = s.runtime.stopped || world.stops_in_wait s.round;
      };
      waits =
          record { structural = structural; delay = delay; interrupted = interrupted } ∷ s.waits;
      round = suc s.round;
    }

    unfoldable pub after_wait : (interrupted : Bool) → State → Step
    unfolding reassemble_on_adrenalin
    after_wait interrupted s = if interrupted then reassemble_on_adrenalin s else again s

    -- The wait of a round that failed, and what follows it.
    unfoldable pub wait_and_retry : (structural : Bool) → (delay : ℕ) → State → Step
    unfolding wait_or_adrenalin after_wait
    wait_and_retry structural delay s =
        let r = wait_or_adrenalin delay (world.slices s.round) s.runtime.buffer in
        after_wait r.0 (waited structural delay r s)

    -- The delay behind the n-th structural failure.
    unfoldable pub struct_delay : ℕ → ℕ
    struct_delay n =
        if leb n config.struct_output_fast_retries
        then config.llm_failure_retry_interval
        else config.struct_output_slow_retry_interval

    -- What is done with an answer.
    unfoldable pub validate_answer : String → Outcome String ParsedSelfOutput → State → Step
    unfolding is_complete wait_and_retry struct_delay
    validate_answer raw (raised x) s = finished failed s
    validate_answer raw (returned parsed) s =
        let ends =
          if s.runtime.stopped then finished abandoned s else finished (answered raw parsed) s in
        let retries =
          wait_and_retry true (struct_delay (suc s.struct_attempt))
            (record s { struct_attempt = suc s.struct_attempt }) in
        if is_complete raw parsed then ends else retries

    unfoldable pub with_reply : Outcome String String → State → Step
    unfolding validate_answer parse_self_output wait_and_retry
    with_reply (raised x) s =
        wait_and_retry false config.llm_failure_retry_interval
          (record s { http_attempt = suc s.http_attempt })
    with_reply (returned raw) s = validate_answer raw (parse_self_output digit raw) s

    unfoldable pub loop_round : State → Step
    unfolding with_reply
    loop_round s =
        let reply =
          with_reply (world.chat s.round s.prompt)
            (record s { runtime = world.in_chat s.round s.runtime }) in
        if s.runtime.stopped then finished abandoned s else reply

    -- The loop, on fuel: none where the fuel runs out.
    unfoldable pub run_self : ℕ → State → Option (Result × State)
    unfolding loop_round
    run_self zero s = none
    run_self (suc fuel) s = elim (loop_round s) [
      | finished r t ↦ some (r, t)
      | again t ↦ run_self fuel t
    ]
