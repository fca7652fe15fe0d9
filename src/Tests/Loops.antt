-- ===== src/Tests/Loops.antt =====
-- The loops of a beat and the beat as a whole, at concrete inputs.
use krakey_bot.Base.{
  ℕ, ◌+◌, ◌≡◌, refl, String, true, false, List, [], ◌∷◌, ◌++◌, none, some, if◌then◌else◌, nat_beq,
  map, inl, arith,
}
use krakey_bot.Base.Action.{returned, raised, is_raised, pure}
use krakey_bot.Stimuli.Buffer
use krakey_bot.History.{ExplicitHistoryRound, missing, written as kept}
use krakey_bot.Recall.{RecallResult}
use krakey_bot.Compact
use krakey_bot.Compact.{Compactor}
use krakey_bot.ToolCalls.{Python, decode_error}
use krakey_bot.SelfOutput.{ParsedSelfOutput, parse_self_output}
use krakey_bot.Heartbeat.RunSelf.{
  IdleConfig, World, State, Result, is_complete, run_self, loop_round, with_reply, validate_answer,
  wait_and_retry, after_wait, struct_delay,
}
use krakey_bot.Heartbeat.RunSelf.Rounds.{Answer, run_self_ends}
use krakey_bot.Heartbeat.RunSelf.Waits.{Delays, after_rounds, state_of, end_of, run_self-Delays}
use krakey_bot.Heartbeat.Idle.{wait_or_adrenalin}
use krakey_bot.Heartbeat.Budget.{enforce_input_budget}
use krakey_bot.Heartbeat.Budget.Fits.{Prunes, enforce_input_budget_lem}
use krakey_bot.Heartbeat.Beat.{Phases, PhaseName, Signal, Beat, beat}
use krakey_bot.Heartbeat.Beat.Paths.{is_beat, beat_lem}
use krakey_bot.Tests.Decisions.{ascii_digit}

abbrev python : Python
python = record { loads = λ s. raised (decode_error "Expecting value" false 0); repr = λ v. "" }

abbrev good : String
good = "[THINKING] tea [DECISION] drink [IDLE] 60"

abbrev good_output : ParsedSelfOutput
good_output = record {
  thinking = "tea";
  decision = "drink";
  note = "";
  idle_seconds = some (record { negative = false; magnitude = 60 });
  found_tags = "THINKING" ∷ "DECISION" ∷ "IDLE" ∷ [];
  raw = good;
}

parsed_good : parse_self_output ascii_digit good ≡ returned good_output
unfolding parse_self_output
parsed_good = refl

complete_good : is_complete python ascii_digit good good_output ≡ true
unfolding is_complete
complete_good = refl

abbrev config : IdleConfig
config = record {
  llm_failure_retry_interval = 5;
  struct_output_fast_retries = 1;
  struct_output_slow_retry_interval = 60;
}

-- A raise, two answers with no tags, and from then on good ones.
abbrev world : World
world = record {
  chat = λ n p.
      if nat_beq n 0
      then raised "timeout"
      else if nat_beq n 1
      then returned "hm"
      else if nat_beq n 2
      then returned "hm"
      else returned good;
  in_chat = λ n rt. rt;
  slices = λ n. [];
  stops_in_wait = λ n. false;
  report = λ n m c. returned "";
  stamps = λ n m. record { ident = n; now = n };
  rebuild = λ n l. returned "prompt";
  memory_sleep = λ n rt. returned rt;
}

abbrev start : State
start = record {
  runtime = record { buffer = Buffer.empty; stopped = false };
  stimuli = [];
  prompt = "prompt";
  http_attempt = 0;
  struct_attempt = 0;
  round = 0;
  waits = [];
}

run_self_ends_example :
    (r : Result) × (t : State) × (run_self python ascii_digit config world 4 start ≡ some (r, t))
    × Answer python ascii_digit r t
run_self_ends_example =
    run_self_ends python ascii_digit config world 3 good good_output (λ p. refl) parsed_good
      complete_good 4 start (omega arith) (omega arith)

-- Behind three rounds the loop is in its third wait, and goes on.
run_self-Delays_example :
    Delays config (state_of (after_rounds config python ascii_digit world 3 start)).waits
    × (run_self python ascii_digit config world 3 start
        ≡ end_of (after_rounds config python ascii_digit world 3 start))
run_self-Delays_example = run_self-Delays config python ascii_digit world 3 start refl refl

delays :
    map (λ w. w.delay) (state_of (after_rounds config python ascii_digit world 3 start)).waits
    ≡ 60 ∷ 5 ∷ 5 ∷ []
unfolding after_rounds parse_self_output is_complete loop_round with_reply validate_answer
    wait_and_retry after_wait wait_or_adrenalin struct_delay
delays = refl

abbrev round : ℕ → ExplicitHistoryRound
round n = record {
  heartbeat_id = record { negative = false; magnitude = n };
  stimulus_summary = "tea";
  decision_text = "drink";
  note_text = "";
  thinking_text = "";
  recall_summary = "";
}

abbrev compactor : Compactor
compactor = record {
  window = record {
    history_token_budget = 100;
    has_state_path = true;
    compact_threshold = 10;
    max_history_rounds = 20;
    rounds = round 1 ∷ round 2 ∷ [];
    file = missing;
    writes = 0;
  };
  started = [];
  asked = 0;
}

-- A model that fails, and a prompt that never fits.
abbrev compact_world : Compact.World
compact_world = record {
  fate = λ n. kept;
  estimate_tokens = λ t. 9;
  recall_fn = λ n q. returned [];
  chat = λ n p. raised Compact.world_error;
  parse_compact_json = λ t. raised Compact.type_error;
  remember_extraction = λ n ns es. returned tt;
}

abbrev no_recall : RecallResult
no_recall = record { nodes = []; edges = []; covered_stimuli = []; uncovered_stimuli = [] }

enforce_input_budget_lem_example :
    Prunes compact_world
      (λ r l. "prompt")
      (λ n. returned no_recall)
      false
      5
      10
      compactor
      (enforce_input_budget compact_world
        (λ r l. "prompt")
        (λ n. returned no_recall)
        false
        5
        no_recall
        compactor)
enforce_input_budget_lem_example =
    enforce_input_budget_lem compact_world (λ r l. "prompt") (λ n. returned no_recall) false 5
      (λ k. inl refl) no_recall compactor

-- The runtime is a number that the sleep changes.
abbrev phases : Phases ℕ
phases = record {
  force_sleep_threshold = 90;
  load_self_model = λ r. raised "no file";
  drain_and_seed_recall = pure [];
  handle_commands = λ l. pure (record { filtered = l; triggered = none });
  compute_fatigue =
      pure (record { node_count = 95; edge_count = 0; fatigue_pct = 95; fatigue_hint = "" });
  compact = pure tt;
  finalize_recall_and_pushback = pure no_recall;
  run_self = λ l r c. pure none;
  save_round = λ p l r. pure tt;
  log_self_output = λ p. pure tt;
  auto_ingest_feedback = λ l. pure tt;
  apply_decision = λ p r c. pure false;
  idle = λ p r. pure tt;
  memory_sleep = λ reason r. (raised "locked", r + 1);
}

beat_lem_example :
    let b : Beat ℕ = record { runtime = 0; heartbeat_count = 0; trace = [] } in
    let (o, d) = beat phases b in
    (t : List (PhaseName × Signal)) × (d.trace ≡ [] ++ t)
    × (d.heartbeat_count ≡ 1)
    × (is_beat (is_raised o) t ≡ true)
beat_lem_example = beat_lem phases (record { runtime = 0; heartbeat_count = 0; trace = [] })
