-- ===== src/Tests/Beats.antt =====
-- The phases of a beat, at concrete inputs.
use krakey_bot.Base.{
  ℕ, nat_eq, ◌≤◌, length, take, Distinct, elem, String, true, false, not, ◌&&◌, ◌≡◌, refl, List, [],
  ◌∷◌, ◌++◌, none, some, if◌then◌else◌, is_empty, keep,
}
use krakey_bot.Base.Sort.{sort_by}
use krakey_bot.Base.Dict
use krakey_bot.Base.Dict.{Dict}
use krakey_bot.Base.Action.{Outcome, returned, is_raised}
use krakey_bot.Stimuli.{Stimulus, Stamp}
use krakey_bot.Stimuli.Buffer
use krakey_bot.Json.{end}
use krakey_bot.Decision.{ToolCall, DecisionResult}
use krakey_bot.Heartbeat.Fatigue.{
  calculate_fatigue, matched_threshold, fatigue_hint, low_fatigue_hint,
}
use krakey_bot.Heartbeat.Fatigue.Hint.{is_highest, matched_threshold-is_highest}
use krakey_bot.Base.Strip.{lstrip, rstrip}
use krakey_bot.Heartbeat.Commands.{
  Command, Runtime, Error, parsed, behind_slash, first_word, parse_command, phase_handle_commands,
  status,
}
use krakey_bot.Heartbeat.Commands.Parsing.{is_lone_slash, parse_command-raises}
use krakey_bot.Heartbeat.Commands.Priority.{IsHandled, phase_handle_commands_lem}
use krakey_bot.Stimuli.Buffer.{Buffer, Call, pushes, peeks, run}
use krakey_bot.Stimuli.Buffer.Flags.{urgent, run-empty-IsValid}
use krakey_bot.Heartbeat.Idle.{Slice, wait_or_adrenalin, idle_with_recall}
use krakey_bot.Heartbeat.Idle.Waits.{IsWait, joined, wait_or_adrenalin_lem, idle_with_recall_lem}
use krakey_bot.Heartbeat.PushBack.{push_back_all}
use krakey_bot.Heartbeat.PushBack.Once.{idents, all_of, push_back_all_lem}
use krakey_bot.Heartbeat.Decide.{State, is_sleep, refuses_sleep, apply_translation}
use krakey_bot.Heartbeat.Decide.Sleep.{
  is_none, requests_sleep, refuses_sleep_lem, apply_translation_lem,
}

abbrev thresholds : Dict ℕ String
thresholds = (70, "tired") ∷ (30, "fresh") ∷ []

-- 29 of 100 nodes are 28 percent, by the rounding of the quotient.
rounded_down : calculate_fatigue 29 100 thresholds ≡ (28, low_fatigue_hint)
unfolding calculate_fatigue sort_by
rounded_down = refl

matched_threshold-is_highest_example :
    is_highest 75 (Dict.keys thresholds) (matched_threshold 75 thresholds) ≡ true
matched_threshold-is_highest_example = matched_threshold-is_highest 75 thresholds

parse_command-raises_example :
    is_raised (parse_command " / ") ≡ is_lone_slash (rstrip (lstrip " / "))
parse_command-raises_example = parse_command-raises " / "

-- The message "/" makes the command phase raise.
lone_slash : is_raised (parse_command "/") ≡ true
unfolding parse_command lstrip rstrip behind_slash first_word
lone_slash = refl

with_spaces : parse_command "  / STATUS now" ≡ returned (some status)
unfolding parse_command lstrip rstrip behind_slash first_word
with_spaces = refl

abbrev message : ℕ → String → Stimulus
message ident content = record {
  ident = ident;
  type = "user_message";
  source = "channel:chat";
  content = content;
  timestamp = ident;
  adrenalin = false;
}

abbrev batch : List Stimulus
batch =
    message 1 "/status"
    ∷ message 2 "hello"
    ∷ message 3 "/sleep"
    ∷ message 4 "/kill"
    ∷ message 5 "bye"
    ∷ []

abbrev report : ℕ → Command → Outcome Error String
report n c = returned "fine"

abbrev stamps : ℕ → Stamp
stamps n = record { ident = n; now = n }

abbrev runtime : Runtime
runtime = record { buffer = Buffer.empty; stopped = false }

phase_handle_commands_lem_example :
    IsHandled batch
      (record { filtered = []; triggered = none })
      runtime
      (phase_handle_commands report stamps batch runtime)
unfolding parsed parse_command lstrip rstrip behind_slash first_word
phase_handle_commands_lem_example =
    phase_handle_commands_lem report stamps (λ n c. ("fine", refl)) batch runtime refl

refuses_sleep_lem_example :
    (refuses_sleep 20 thresholds
      ≡ (not (is_empty thresholds) && is_none (matched_threshold 20 thresholds)))
    × ((if refuses_sleep 20 thresholds then fatigue_hint 20 thresholds else low_fatigue_hint)
        ≡ low_fatigue_hint)
refuses_sleep_lem_example = refuses_sleep_lem 20 thresholds

abbrev call_of : String → ToolCall
call_of tool = record { tool = tool; intent = ""; params = end; adrenalin = false }

abbrev result : DecisionResult
result = record {
  tool_calls = call_of "search" ∷ call_of "sleep" ∷ [];
  memory_writes = [];
  sleep = false;
  parse_failures = [];
}

abbrev state : State
state = record { buffer = Buffer.empty; dispatched = [] }

apply_translation_lem_example :
    let sleeps = requests_sleep stamps 40 thresholds result && not (refuses_sleep 40 thresholds) in
    let (slept, t) = apply_translation stamps 40 thresholds (returned result) state in
    (slept ≡ sleeps)
    × (t.dispatched
        ≡ state.dispatched
          ++ record result {
            sleep = sleeps;
            tool_calls = keep (λ c. not (is_sleep c)) result.tool_calls;
          }
            ∷ [])
apply_translation_lem_example = apply_translation_lem stamps 40 thresholds result state

-- A message that was peeked at, one that was not, and an urgent one that arrives in the second slice.
abbrev calls : List Call
calls = pushes (message 1 "tea") ∷ peeks ∷ pushes (message 2 "cake") ∷ []

abbrev waiting : Buffer
waiting = run Buffer.empty calls

abbrev slices : List Slice
slices =
    record { arrives = []; timed_out = true; arrives_asleep = [] }
    ∷ record {
      arrives = record (message 3 "fire") { adrenalin = true } ∷ [];
      timed_out = false;
      arrives_asleep = [];
    }
    ∷ []

wait_or_adrenalin_lem_example :
    IsWait waiting (wait_or_adrenalin 2 slices waiting)
    × ((if urgent waiting.queue then (wait_or_adrenalin 2 slices waiting).0 else true) ≡ true)
wait_or_adrenalin_lem_example = wait_or_adrenalin_lem 2 slices waiting (run-empty-IsValid calls)

idle_with_recall_lem_example :
    let i = idle_with_recall slices waiting in
    (i.buffer.recalled_up_to ≤ length i.buffer.queue)
    × (take waiting.recalled_up_to waiting.queue ++ joined i.fed
        ≡ take i.buffer.recalled_up_to i.buffer.queue)
idle_with_recall_lem_example = idle_with_recall_lem slices waiting (run-empty-IsValid calls).within

-- The second message is left uncovered in both beats.
abbrev uncovered : List (List Stimulus)
uncovered = (message 1 "tea" ∷ message 2 "cake" ∷ []) ∷ (message 2 "cake" ∷ []) ∷ []

push_back_all_lem_example :
    let again =
      (push_back_all uncovered
        (record { buffer = Buffer.empty; retries = []; again = [] })).again in
    Distinct (idents again) × ((i : ℕ) → elem i (idents again) ≡ elem i (idents (all_of uncovered)))
push_back_all_lem_example = push_back_all_lem uncovered Buffer.empty
