-- ===== src/Heartbeat/Commands/Priority.antt =====
-- What a batch of stimuli with commands in it does.
use krakey_bot.Base.{
  ℕ, suc, ◌+◌, ◌≡◌, refl, sym, ◌∙◌, String, Bool, true, false, ◌||◌, List, [], ◌∷◌, ◌++◌, Option,
  none, some, length, any, keep, if◌then◌else◌, length-append, arith,
}
use mathlib.Core.List.{append_assoc, append-nil}
use krakey_bot.Base.Action.{Outcome, returned, raised, is_raised}
use krakey_bot.Stimuli.{Stimulus, Stamp}
use krakey_bot.Stimuli.Buffer.{push}
use krakey_bot.Heartbeat.Commands.{
  Command, status, memory_stats, sleep, kill, sleep_action, kill_action, Error, Runtime, Phase,
  parsed, notice, handle_command, handle_commands, phase_handle_commands,
}

-- The kinds of stimuli in a batch.
abbrev pub is_kill : Outcome Error (Option Command) → Bool
is_kill (returned (some kill)) = true
is_kill _ = false

abbrev pub is_sleep : Outcome Error (Option Command) → Bool
is_sleep (returned (some sleep)) = true
is_sleep _ = false

abbrev pub is_report : Outcome Error (Option Command) → Bool
is_report (returned (some status)) = true
is_report (returned (some memory_stats)) = true
is_report _ = false

abbrev pub is_plain : Outcome Error (Option Command) → Bool
is_plain (returned none) = true
is_plain _ = false

-- The stimuli in front of the first `/kill`.
abbrev pub until_kill : List Stimulus → List Stimulus
until_kill [] = []
until_kill (s ∷ l) = let rest = until_kill l in if is_kill (parsed s) then [] else s ∷ rest

abbrev pub has : (Outcome Error (Option Command) → Bool) → List Stimulus → Bool
has p = any (λ s. p (parsed s))

abbrev pub only : (Outcome Error (Option Command) → Bool) → List Stimulus → List Stimulus
only p = keep (λ s. p (parsed s))

collapse :
    {A : Type 0} (a b : Bool) (x y : A)
    → (if a then x else if b then y else y) ≡ (if a then x else y)
collapse true b x y = refl
collapse false true x y = refl
collapse false false x y = refl

-- A result of the loop over `l`, from a phase `p` and a runtime `rt` on.
pub record IsHandled (l : List Stimulus) (p : Phase) (rt : Runtime)
    (od : Outcome Error Phase × Runtime) : Type 0 where
  pub phase : Phase
  pub returns : od.0 ≡ returned phase
  pub triggered : phase.triggered ≡ (
      if has is_kill l
      then some kill_action
      else if has is_sleep l
      then some sleep_action
      else p.triggered)
  pub filtered : phase.filtered ≡ p.filtered ++ only is_plain (until_kill l)
  pub stopped : od.1.stopped ≡ (rt.stopped || has is_kill l)
  pub notices :
      length od.1.buffer.queue ≡ length rt.buffer.queue + length (only is_report (until_kill l))

module _ (report : ℕ → Command → Outcome Error String) (stamps : ℕ → Stamp)
    (reports : (n : ℕ) (c : Command) → (t : String) × (report n c ≡ returned t)) where
  module _ (n : ℕ) (s : Stimulus) (l : List Stimulus)
      (rest : (p : Phase) (rt : Runtime)
        → IsHandled l p rt (handle_commands report stamps (suc n) p l rt))
      (p : Phase) (rt : Runtime) where
    abbrev result : Outcome Error Phase × Runtime
    unfolding handle_commands
    result = handle_commands report stamps n p (s ∷ l) rt

    plain : parsed s ≡ returned none → IsHandled (s ∷ l) p rt result
    unfolding handle_commands
    plain e =
        let v = rest (record p { filtered = p.filtered ++ s ∷ [] }) rt in
        record {
          phase = v.phase;
          returns = rw (e, handle_commands) v.returns;
          triggered = rw e v.triggered;
          filtered = rw (e, e) (v.filtered ∙ append_assoc p.filtered (s ∷ []) _);
          stopped = rw (e, handle_commands) v.stopped;
          notices = rw (e, handle_commands, e) v.notices;
        }

    sleeps : parsed s ≡ returned (some sleep) → IsHandled (s ∷ l) p rt result
    unfolding handle_commands handle_command
    sleeps e =
        let v = rest (record p { triggered = some sleep_action }) rt in
        record {
          phase = v.phase;
          returns = rw (e, handle_commands) v.returns;
          triggered = rw e (v.triggered ∙ collapse (has is_kill l) (has is_sleep l) _ _);
          filtered = rw (e, e) v.filtered;
          stopped = rw (e, handle_commands) v.stopped;
          notices = rw (e, handle_commands, e) v.notices;
        }

    kills : parsed s ≡ returned (some kill) → IsHandled (s ∷ l) p rt result
    unfolding handle_commands handle_command
    kills e = record {
      phase = record p { triggered = some kill_action };
      returns = rw (e, handle_commands) refl;
      triggered = rw e refl;
      filtered = rw (e, append-nil) refl;
      stopped = rw (e, handle_commands) (ground arith);
      notices = rw (e, handle_commands) (omega arith);
    }

    reports_on :
        (c : Command)
        → parsed s ≡ returned (some c)
        → is_report (returned (some c)) ≡ true
        → IsHandled (s ∷ l) p rt result
    unfolding handle_commands handle_command push
    reports_on status e h =
        let (t, answer) = reports n status in
        let v = rest p (record rt { buffer = push (notice report stamps n status t) rt.buffer }) in
        record {
          phase = v.phase;
          returns = rw (e, handle_commands, answer) v.returns;
          triggered = rw e v.triggered;
          filtered = rw (e, e) v.filtered;
          stopped = rw (e, handle_commands, answer) v.stopped;
          notices =
              rw (e, handle_commands, answer, e)
                (omega (
                  arith,
                  v.notices,
                  length-append rt.buffer.queue (notice report stamps n status t ∷ []),
                ));
        }
    reports_on memory_stats e h =
        let (t, answer) = reports n memory_stats in
        let v =
          rest p (record rt { buffer = push (notice report stamps n memory_stats t) rt.buffer }) in
        record {
          phase = v.phase;
          returns = rw (e, handle_commands, answer) v.returns;
          triggered = rw e v.triggered;
          filtered = rw (e, e) v.filtered;
          stopped = rw (e, handle_commands, answer) v.stopped;
          notices =
              rw (e, handle_commands, answer, e)
                (omega (
                  arith,
                  v.notices,
                  length-append rt.buffer.queue (notice report stamps n memory_stats t ∷ []),
                ));
        }
    reports_on sleep e h = absurd (ground arith)
    reports_on kill e h = absurd (ground arith)

  -- The loop over `l`, from the n-th stimulus on.
  handle_commands_lem :
      (n : ℕ) (p : Phase) (l : List Stimulus) (rt : Runtime)
      → has is_raised l ≡ false
      → IsHandled l p rt (handle_commands report stamps n p l rt)
  unfolding handle_commands
  handle_commands_lem n p [] rt h = record {
    phase = p;
    returns = refl;
    triggered = refl;
    filtered = sym (append-nil p.filtered);
    stopped = ground arith;
    notices = omega arith;
  }
  handle_commands_lem n p (s ∷ l) rt h =
      go (parsed s) refl (λ q t. handle_commands_lem (suc n) q l t (ground arith))
    where
      go :
          (o : Outcome Error (Option Command))
          → parsed s ≡ o
          → ((q : Phase) (t : Runtime)
              → IsHandled l q t (handle_commands report stamps (suc n) q l t))
          → IsHandled (s ∷ l) p rt (handle_commands report stamps n p (s ∷ l) rt)
      go (raised x) e rest = absurd (ground (arith, e))
      go (returned none) e rest = plain n s l rest p rt e
      go (returned (some status)) e rest = reports_on n s l rest p rt status e refl
      go (returned (some memory_stats)) e rest = reports_on n s l rest p rt memory_stats e refl
      go (returned (some sleep)) e rest = sleeps n s l rest p rt e
      go (returned (some kill)) e rest = kills n s l rest p rt e

  -- Where no content is a lone slash and the reports do not fail, a batch returns. What it triggers is
  -- `/kill`, which also stops the runtime, wherever one stands, else `/sleep` where one stands. What
  -- passes are the stimuli in front of the first `/kill` that are no commands, in order, and each of
  -- the commands among them that only report pushes one notice.
  pub phase_handle_commands_lem :
      (batch : List Stimulus) (rt : Runtime)
      → has is_raised batch ≡ false
      → IsHandled batch
          (record { filtered = []; triggered = none })
          rt
          (phase_handle_commands report stamps batch rt)
  unfolding phase_handle_commands
  phase_handle_commands_lem batch rt h = handle_commands_lem 0 _ batch rt h
