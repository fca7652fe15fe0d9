-- ===== src/Heartbeat/Beat/Paths.antt =====
-- Which phases a beat runs, and in which order.
use krakey_bot.Base.{
  ℕ, suc, ◌≡◌, refl, sym, ◌∙◌, String, Bool, true, false, not, map, is_empty, Bool-cases, ◌||◌,
  ◌&&◌, List, [], ◌∷◌, ◌++◌, Option, none, some, leb, nat_beq, any, inl, inr,
}
use mathlib.Core.List.{append_assoc, append-nil}
use krakey_bot.Base.Action.{Action, is_raised, pure, Outcome-cases, ◌>>=◌}
use krakey_bot.Stimuli.{Stimulus}
use krakey_bot.Recall.{RecallResult}
use krakey_bot.SelfOutput.{ParsedSelfOutput}
use krakey_bot.Heartbeat.Commands
use krakey_bot.Heartbeat.Commands.{CommandAction, kill_action, sleep_action, no_action}
use krakey_bot.Heartbeat.Beat.{
  GmCounts, Phases, PhaseName, drains, commands, fatigue, compacts, recalls, thinks, saves, logs,
  ingests, decides, idles, sleeps, Beat, phase, Signal, plain, kills, orders_sleep, tires, gives_up,
  wants_sleep, breaks, unread, on_commands, on_self, on_decision, on_fatigue, begin_beat,
  perform_sleep, after_decision, after_self, after_fatigue, after_commands, beat,
}

-- Phases whose answers do not matter.
abbrev plainly : List PhaseName → List (PhaseName × Signal)
plainly = map (λ p. (p, plain))

-- The six ways through a beat, each with the answer that it is taken on: a kill; a sleep by command; a
-- fatigue from the threshold on; no answer of Self; a sleep that Self decides; else idle.
abbrev pub paths : List (List (PhaseName × Signal))
paths =
    (plainly (drains ∷ []) ++ (commands, kills) ∷ [])
    ∷ (plainly (drains ∷ []) ++ (commands, orders_sleep) ∷ plainly (sleeps ∷ []))
    ∷ (plainly (drains ∷ commands ∷ []) ++ (fatigue, tires) ∷ plainly (sleeps ∷ []))
    ∷ (plainly (drains ∷ commands ∷ fatigue ∷ compacts ∷ recalls ∷ []) ++ (thinks, gives_up) ∷ [])
    ∷ (plainly
          (drains ∷ commands ∷ fatigue ∷ compacts ∷ recalls ∷ thinks ∷ saves ∷ logs ∷ ingests ∷ [])
        ++ (decides, wants_sleep) ∷ plainly (sleeps ∷ []))
    ∷ plainly (
        drains ∷ commands ∷ fatigue ∷ compacts ∷ recalls ∷ thinks ∷ saves ∷ logs ∷ ingests ∷ decides
        ∷ idles ∷ [])
    ∷ []

abbrev rank : PhaseName → ℕ
rank drains = 0
rank commands = 1
rank fatigue = 2
rank compacts = 3
rank recalls = 4
rank thinks = 5
rank saves = 6
rank logs = 7
rank ingests = 8
rank decides = 9
rank idles = 10
rank sleeps = 11

abbrev signal_rank : Signal → ℕ
signal_rank plain = 0
signal_rank kills = 1
signal_rank orders_sleep = 2
signal_rank tires = 3
signal_rank gives_up = 4
signal_rank wants_sleep = 5
signal_rank breaks = 6

abbrev same_signal : Signal → Signal → Bool
same_signal s t = nat_beq (signal_rank s) (signal_rank t)

-- The phases and answers are those of a path, or, where `cut_off`, those up to a phase that raised.
abbrev pub follows : (cut_off : Bool) → List (PhaseName × Signal) → List (PhaseName × Signal) → Bool
follows cut_off [] [] = not cut_off
follows cut_off [] (q ∷ qs) = false
follows cut_off (p ∷ ps) [] = false
follows cut_off ((p, s) ∷ ps) ((q, t) ∷ qs) =
    nat_beq (rank p) (rank q)
    && (cut_off && (is_empty ps && same_signal s breaks)
        || (same_signal s t && follows cut_off ps qs))

abbrev pub is_beat : (cut_off : Bool) → List (PhaseName × Signal) → Bool
is_beat cut_off trace = any (follows cut_off trace) paths

module _ {R : Type 0} where
  -- The phases that an action adds, and whether it raised, are in `Q`; no heartbeat is counted.
  record Good (Q : Bool → List (PhaseName × Signal) → Bool) {A : Type 0}
      (m : Action String (Beat R) A) : Type 0 where
    at :
        (b : Beat R)
        → (t : List (PhaseName × Signal)) × ((m b).1.trace ≡ b.trace ++ t)
          × ((m b).1.heartbeat_count ≡ b.heartbeat_count)
          × (Q (is_raised (m b).0) t ≡ true)

  pure-Good :
      {A : Type 0} (Q : Bool → List (PhaseName × Signal) → Bool) (a : A)
      → Q false [] ≡ true
      → Good Q (pure a)
  pure-Good Q a h = record { at = λ b. ([], sym (append-nil b.trace), refl, h) }

  module _ (phases : Phases R) where
    -- The last phase of a beat, whose answer does not matter.
    phase-Good :
        (Q : Bool → List (PhaseName × Signal) → Bool) (name : PhaseName)
        (m : Action String R (Unit {0}))
        → Q true ((name, breaks) ∷ []) ≡ true
        → Q false ((name, plain) ∷ []) ≡ true
        → Good Q (phase phases name unread m)
    unfolding phase
    phase-Good Q name m cut goes = record {
      at = λ b. elim (Outcome-cases (m b.runtime).0) [
        | inl (x, e) ↦ ((name, breaks) ∷ [], rw (e, phase) refl, refl, rw (e, phase) cut)
        | inr (a, e) ↦ ((name, plain) ∷ [], rw (e, phase) refl, refl, rw (e, phase) goes)
      ];
    }

    then-Good :
        {A : Type 0} (Q : Bool → List (PhaseName × Signal) → Bool) (name : PhaseName)
        (signal : A → Signal) (m : Action String R A) (f : A → Action String (Beat R) (Unit {0}))
        → Q true ((name, breaks) ∷ []) ≡ true
        → ((a : A) → Good (λ r t. Q r ((name, signal a) ∷ t)) (f a))
        → Good Q (phase phases name signal m >>= f)
    unfolding phase
    then-Good Q name signal m f cut rest = record {
      at = λ b. elim (Outcome-cases (m b.runtime).0) [
        | inl (x, e) ↦
            ((name, breaks) ∷ [], rw (e, phase) refl, rw (e, phase) refl, rw (e, phase) cut)
        | inr (a, e) ↦
            let b' : Beat R = record b {
              runtime = (m b.runtime).1;
              trace = b.trace ++ (name, signal a) ∷ [];
            } in
            let (t, grows, same, good) = (rest a).at b' in
            (
              (name, signal a) ∷ t,
              rw (e, phase) (grows ∙ append_assoc b.trace ((name, signal a) ∷ []) t),
              rw (e, phase) same,
              rw (e, phase) good,
            )
      ];
    }

    -- The rest of a beat, behind the phases that are done.
    abbrev after : List (PhaseName × Signal) → Bool → List (PhaseName × Signal) → Bool
    after done r t = is_beat r (done ++ t)

    abbrev Behind : List (PhaseName × Signal) → {A : Type 0} → Action String (Beat R) A → Type 0
    Behind done = Good (after done)

    abbrev till_recall : List (PhaseName × Signal)
    till_recall = plainly (drains ∷ commands ∷ fatigue ∷ compacts ∷ recalls ∷ [])

    abbrev till_ingest : List (PhaseName × Signal)
    till_ingest = till_recall ++ plainly (thinks ∷ saves ∷ logs ∷ ingests ∷ [])

    after_decision-Behind :
        (parsed : ParsedSelfOutput) (recall : RecallResult) (sleep_requested : Bool)
        → Behind
            (till_ingest ++ (decides, on_decision sleep_requested) ∷ [])
            (after_decision phases parsed recall sleep_requested)
    unfolding after_decision
    after_decision-Behind parsed recall true =
        phase-Good (after (till_ingest ++ (decides, wants_sleep) ∷ [])) sleeps
          (phases.memory_sleep "voluntary sleep requested by Self") refl refl
    after_decision-Behind parsed recall false =
        phase-Good (after (till_ingest ++ (decides, plain) ∷ [])) idles (phases.idle parsed recall)
          refl refl

    after_self-Behind :
        (stimuli : List Stimulus) (recall : RecallResult) (counts : GmCounts)
        (o : Option ParsedSelfOutput)
        → Behind
            (till_recall ++ (thinks, on_self o) ∷ [])
            (after_self phases stimuli recall counts o)
    unfolding after_self
    after_self-Behind stimuli recall counts none =
        pure-Good (after (till_recall ++ (thinks, gives_up) ∷ [])) tt refl
    after_self-Behind stimuli recall counts (some parsed) =
        let till_self = till_recall ++ plainly (thinks ∷ []) in
        then-Good (after till_self) saves unread (phases.save_round parsed stimuli recall) _ refl
          λ _.
            then-Good (after (till_self ++ plainly (saves ∷ []))) logs unread
              (phases.log_self_output parsed) _ refl
              λ _.
                then-Good (after (till_self ++ plainly (saves ∷ logs ∷ []))) ingests unread
                  (phases.auto_ingest_feedback stimuli) _ refl
                  λ _.
                    then-Good (after till_ingest) decides on_decision
                      (phases.apply_decision parsed recall counts) _ refl
                      λ sleep_requested. after_decision-Behind parsed recall sleep_requested

    abbrev till_commands : List (PhaseName × Signal)
    till_commands = plainly (drains ∷ commands ∷ [])

    awake-Behind :
        (stimuli : List Stimulus) (counts : GmCounts)
        → Behind (till_commands ++ (fatigue, plain) ∷ []) (
            phase phases compacts unread phases.compact >>= λ _.
            phase phases recalls unread phases.finalize_recall_and_pushback >>= λ recall_result.
            phase phases thinks on_self (phases.run_self stimuli recall_result counts) >>= λ parsed.
            after_self phases stimuli recall_result counts parsed)
    awake-Behind stimuli counts =
        let till_fatigue = till_commands ++ plainly (fatigue ∷ []) in
        then-Good (after till_fatigue) compacts unread phases.compact _ refl λ _.
          then-Good (after (till_fatigue ++ plainly (compacts ∷ []))) recalls unread
            phases.finalize_recall_and_pushback _ refl
            λ recall.
              then-Good (after till_recall) thinks on_self (phases.run_self stimuli recall counts) _
                refl λ parsed. after_self-Behind stimuli recall counts parsed

    after_fatigue-Behind :
        (stimuli : List Stimulus) (counts : GmCounts)
        → Behind
            (till_commands ++ (fatigue, on_fatigue phases counts) ∷ [])
            (after_fatigue phases stimuli counts)
    unfolding after_fatigue perform_sleep
    after_fatigue-Behind stimuli counts =
        elim (Bool-cases (leb phases.force_sleep_threshold counts.fatigue_pct)) [
          | inl e ↦
              rw (e, after_fatigue)
                (phase-Good (after (till_commands ++ (fatigue, tires) ∷ [])) sleeps _ refl refl)
          | inr e ↦ rw (e, after_fatigue) (awake-Behind stimuli counts)
        ]

    after_commands-Behind :
        (p : Commands.Phase)
        → Behind (plainly (drains ∷ []) ++ (commands, on_commands p) ∷ []) (after_commands phases p)
    unfolding after_commands perform_sleep
    after_commands-Behind p = go p.triggered refl
      where
        on : Behind till_commands (
            phase phases fatigue (on_fatigue phases) phases.compute_fatigue >>= λ counts.
            after_fatigue phases p.filtered counts)
        on =
            then-Good (after till_commands) fatigue (on_fatigue phases) phases.compute_fatigue
              (λ counts. after_fatigue phases p.filtered counts) refl
              λ counts. after_fatigue-Behind p.filtered counts

        go :
            (a : Option CommandAction)
            → p.triggered ≡ a
            → Behind
                (plainly (drains ∷ []) ++ (commands, on_commands p) ∷ [])
                (after_commands phases p)
        go none e = rw e on
        go (some kill_action) e =
            rw e (pure-Good (after (plainly (drains ∷ []) ++ (commands, kills) ∷ [])) tt refl)
        go (some sleep_action) e = rw e (
            phase-Good (after (plainly (drains ∷ []) ++ (commands, orders_sleep) ∷ [])) sleeps
              (phases.memory_sleep "manual /sleep command") refl refl)
        go (some no_action) e = rw e on

    -- Whatever its phases do, a beat counts one heartbeat, and what it runs is one of six paths, in order and
    -- each phase once, by what the phases answer: a kill ends it behind the commands; it sleeps behind
    -- the commands where these order it, behind the fatigue where this has reached the threshold,
    -- and behind the decision where this wants it; it ends where Self gives no answer; and else it
    -- idles behind the decision. Where a phase raises, it raises, with the path up to that phase
    -- and no other. So Self is not asked after a kill or a sleep, a round is saved in front of
    -- its decision, and a beat sleeps once at the most and does not idle after it.
    pub beat_lem :
        (b : Beat R)
        → let (o, d) = beat phases b in
          (t : List (PhaseName × Signal)) × (d.trace ≡ b.trace ++ t)
          × (d.heartbeat_count ≡ suc b.heartbeat_count)
          × (is_beat (is_raised o) t ≡ true)
    unfolding beat begin_beat
    beat_lem b =
        let rest = then-Good (after []) drains unread phases.drain_and_seed_recall _ refl λ stimuli.
          then-Good (after (plainly (drains ∷ []))) commands on_commands
            (phases.handle_commands stimuli) _ refl λ p. after_commands-Behind p in
        rest.at (begin_beat phases b).1
