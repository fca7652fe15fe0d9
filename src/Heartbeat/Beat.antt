-- ===== src/Heartbeat/Beat.antt =====
-- engines/heartbeat/orchestrator.py, `beat`: the phases of one heartbeat and the ends that cut it short.
-- The phases are operations on the runtime, which may raise; the modules beside this one are about them.
pub mod Paths
use krakey_bot.Base.{
  ℕ, suc, String, Bool, true, false, List, [], ◌∷◌, ◌++◌, Option, none, some, if◌then◌else◌, leb,
}
use krakey_bot.Base.Text.{concat, decimal}
use krakey_bot.Base.Action.{Action, Outcome, returned, raised, pure, ◌>>=◌, ◌>>◌}
use krakey_bot.Stimuli.{Stimulus}
use krakey_bot.Recall.{RecallResult}
use krakey_bot.SelfOutput.{ParsedSelfOutput}
use krakey_bot.Heartbeat.Commands
use krakey_bot.Heartbeat.Commands.{kill_action, sleep_action, no_action}

-- _GMCounts
pub record GmCounts : Type 0 where
  pub node_count : ℕ
  pub edge_count : ℕ
  pub fatigue_pct : ℕ
  pub fatigue_hint : String

-- The phases, and the sleep, on a runtime of the type `R`.
pub record Phases (R : Type 0) : Type 0 where
  pub force_sleep_threshold : ℕ
  pub load_self_model : R → Outcome String R
  pub drain_and_seed_recall : Action String R (List Stimulus)
  pub handle_commands : List Stimulus → Action String R Commands.Phase
  pub compute_fatigue : Action String R GmCounts
  pub compact : Action String R (Unit {0})
  pub finalize_recall_and_pushback : Action String R RecallResult
  pub run_self : List Stimulus → RecallResult → GmCounts → Action String R (Option ParsedSelfOutput)
  pub save_round : ParsedSelfOutput → List Stimulus → RecallResult → Action String R (Unit {0})
  pub log_self_output : ParsedSelfOutput → Action String R (Unit {0})
  pub auto_ingest_feedback : List Stimulus → Action String R (Unit {0})
  pub apply_decision : ParsedSelfOutput → RecallResult → GmCounts → Action String R Bool
  pub idle : ParsedSelfOutput → RecallResult → Action String R (Unit {0})
  pub memory_sleep : (reason : String) → Action String R (Unit {0})

pub data PhaseName : Type 0 where
  drains commands fatigue compacts recalls thinks saves logs ingests decides idles sleeps :
      PhaseName

-- What a phase answers that the beat's course depends on, or that it raised.
pub data Signal : Type 0 where
  plain kills orders_sleep tires gives_up wants_sleep breaks : Signal

-- `trace` are the phases that were begun, each with what it answered.
pub record Beat (R : Type 0) : Type 0 where
  pub runtime : R
  pub heartbeat_count : ℕ
  pub trace : List (PhaseName × Signal)

abbrev pub unread : {A : Type 0} → A → Signal
unread a = plain

abbrev pub on_commands : Commands.Phase → Signal
on_commands p = elim p.triggered [
  | some kill_action ↦ kills
  | some sleep_action ↦ orders_sleep
  | some no_action ↦ plain
  | none ↦ plain
]

abbrev pub on_self : Option ParsedSelfOutput → Signal
on_self none = gives_up
on_self (some parsed) = plain

abbrev pub on_decision : (sleep_requested : Bool) → Signal
on_decision true = wants_sleep
on_decision false = plain

abbrev pub heard : {A : Type 0} → (A → Signal) → Outcome String A → Signal
heard signal (raised x) = breaks
heard signal (returned a) = signal a

module _ {R : Type 0} (phases : Phases R) where
  abbrev pub on_fatigue : GmCounts → Signal
  on_fatigue counts = if leb phases.force_sleep_threshold counts.fatigue_pct then tires else plain

  -- A phase is run, and its answer noted.
  unfoldable pub phase :
      {A : Type 0} → PhaseName → (A → Signal) → Action String R A → Action String (Beat R) A
  phase name signal m b =
      let (o, r) = m b.runtime in
      (o, record b { runtime = r; trace = b.trace ++ (name, heard signal o) ∷ [] })

  -- `except Exception`: the old self model stays.
  abbrev reloaded : Outcome String R → R → R
  reloaded (raised x) r = r
  reloaded (returned r') r = r'

  unfoldable pub begin_beat : Action String (Beat R) (Unit {0})
  begin_beat b = pure tt (record b {
    heartbeat_count = suc b.heartbeat_count;
    runtime = reloaded (phases.load_self_model b.runtime) b.runtime;
  })

  abbrev pub perform_sleep : String → Action String (Beat R) (Unit {0})
  unfolding phase
  perform_sleep reason = phase sleeps unread (phases.memory_sleep reason)

  unfoldable pub after_decision :
      ParsedSelfOutput → RecallResult → (sleep_requested : Bool) → Action String (Beat R) (Unit {0})
  unfolding phase perform_sleep
  after_decision parsed recall_result sleep_requested =
      if sleep_requested
      then perform_sleep "voluntary sleep requested by Self"
      else phase idles unread (phases.idle parsed recall_result)

  unfoldable pub after_self :
      List Stimulus
      → RecallResult
      → GmCounts
      → Option ParsedSelfOutput
      → Action String (Beat R) (Unit {0})
  unfolding phase after_decision
  after_self stimuli recall_result counts none = pure tt
  after_self stimuli recall_result counts (some parsed) =
      phase saves unread (phases.save_round parsed stimuli recall_result) >>= λ _.
      phase logs unread (phases.log_self_output parsed) >>= λ _.
      phase ingests unread (phases.auto_ingest_feedback stimuli) >>= λ _.
      phase decides on_decision (phases.apply_decision parsed recall_result counts)
      >>= λ sleep_requested. after_decision parsed recall_result sleep_requested

  unfoldable pub after_fatigue : List Stimulus → GmCounts → Action String (Beat R) (Unit {0})
  unfolding phase after_self perform_sleep
  after_fatigue stimuli counts =
      let awake = phase compacts unread phases.compact >>= λ _.
      phase recalls unread phases.finalize_recall_and_pushback >>= λ recall_result.
      phase thinks on_self (phases.run_self stimuli recall_result counts) >>= λ parsed.
      after_self stimuli recall_result counts parsed in
      if leb phases.force_sleep_threshold counts.fatigue_pct
      then perform_sleep
          (concat ("force-sleep at fatigue " ∷ decimal counts.fatigue_pct ∷ "%" ∷ []))
      else awake

  unfoldable pub after_commands : Commands.Phase → Action String (Beat R) (Unit {0})
  unfolding phase after_fatigue perform_sleep
  after_commands p =
      let goes_on = phase fatigue on_fatigue phases.compute_fatigue >>= λ counts.
      after_fatigue p.filtered counts in
      elim p.triggered [
        | some kill_action ↦ pure tt
        | some sleep_action ↦ perform_sleep "manual /sleep command"
        | some no_action ↦ goes_on
        | none ↦ goes_on
      ]

  unfoldable pub beat : Action String (Beat R) (Unit {0})
  unfolding begin_beat phase after_commands
  beat = begin_beat >>= λ _. phase drains unread phases.drain_and_seed_recall >>= λ stimuli.
      phase commands on_commands (phases.handle_commands stimuli) >>= λ p. after_commands p
