-- ===== src/Heartbeat/RunSelf/Waits.antt =====
-- How long the loop waits behind each failure.
use Prim.Native.Char.{Char}
use krakey_bot.Base.{
  ℕ, zero, suc, ◌≡◌, refl, ap, sym, subst, ◌∙◌, String, Bool, true, false, ◌&&◌, List, [], ◌∷◌,
  Option, none, some, if◌then◌else◌, if-both, leb, inl, inr, arith,
}
use krakey_bot.Base.Action.{Outcome, returned, raised}
use krakey_bot.ToolCalls.{Python}
use krakey_bot.SelfOutput.{ParsedSelfOutput, parse_self_output}
use krakey_bot.Stimuli.{Stimulus}
use krakey_bot.Heartbeat.Commands
use krakey_bot.Heartbeat.Commands.{
  Phase, CommandAction, kill_action, sleep_action, no_action, Runtime, phase_handle_commands,
}
use krakey_bot.Heartbeat.Idle.{wait_or_adrenalin}
use krakey_bot.Heartbeat.RunSelf.{
  IdleConfig, World, Wait, State, Result, Step, finished, again, is_complete, folded, slept,
  commanded, reassemble_on_adrenalin, waited, after_wait, wait_and_retry, struct_delay,
  validate_answer, with_reply, loop_round, run_self,
}
use krakey_bot.Heartbeat.RunSelf.Rounds.{Step-cases}

-- The structural failures since the last wait that was interrupted; the last wait stands first.
abbrev pub failures_since : List Wait → ℕ
failures_since [] = 0
failures_since (w ∷ ws) =
    let before = failures_since ws in
    if w.interrupted then 0 else if w.structural then suc before else before

-- What the loop returns at a step, and the state by then.
abbrev pub end_of : Step → Option (Result × State)
end_of (finished r t) = some (r, t)
end_of (again t) = none

abbrev pub state_of : Step → State
state_of (finished r t) = t
state_of (again t) = t

module _ (config : IdleConfig) where
  -- Each wait has the slow interval where it stands behind a structural failure, and as many as the
  -- fast retries stand before it since the last interrupted wait; else it has the
  -- interval of the fast retries.
  abbrev pub Delays : List Wait → Type 0
  Delays [] = Unit
  Delays (w ∷ ws) =
      (w.delay ≡ (
        if w.structural && leb config.struct_output_fast_retries (failures_since ws)
        then config.struct_output_slow_retry_interval
        else config.llm_failure_retry_interval))
      × Delays ws

  record Tracks (s : State) : Type 0 where
    counted : s.struct_attempt ≡ failures_since s.waits
    delays : Delays s.waits

  abbrev Keeps : Step → Type 0
  Keeps (finished r t) = Delays t.waits
  Keeps (again t) = Tracks t

  module _ (python : Python) (digit : Char → Option ℕ) (world : World) where
    module _ (s : State) (h : Delays s.waits) (z : failures_since s.waits ≡ 0) where
      folded-Keeps :
          (o : Outcome String String) (l : List Stimulus)
          → Keeps (folded python digit config world o l s)
      folded-Keeps (raised x) l = h
      folded-Keeps (returned prompt) l = record { counted = sym z; delays = h }

      slept-Keeps : (o : Outcome String Runtime) → Keeps (slept python digit config world o s)
      slept-Keeps (raised x) = h
      slept-Keeps (returned rt) = h

      commanded-Keeps :
          (o : Outcome Commands.Error Phase) → Keeps (commanded python digit config world o s)
      commanded-Keeps (raised x) = h
      commanded-Keeps (returned p) = go p.triggered refl
        where
          go :
              (a : Option CommandAction)
              → p.triggered ≡ a
              → Keeps (commanded python digit config world (returned p) s)
          go none e = rw e (folded-Keeps _ _)
          go (some kill_action) e = rw e h
          go (some sleep_action) e = rw e (slept-Keeps (world.memory_sleep s.round s.runtime))
          go (some no_action) e = rw e (folded-Keeps _ _)

    reassemble-Keeps :
        (s : State)
        → Delays s.waits
        → failures_since s.waits ≡ 0
        → Keeps (reassemble_on_adrenalin python digit config world s)
    unfolding reassemble_on_adrenalin
    reassemble-Keeps s h z = commanded-Keeps _ h z _

    after_wait-Keeps :
        (b : Bool) (s : State)
        → Delays s.waits
        → (b ≡ true → failures_since s.waits ≡ 0)
        → (b ≡ false → s.struct_attempt ≡ failures_since s.waits)
        → Keeps (after_wait python digit config world b s)
    unfolding after_wait
    after_wait-Keeps true s h z c = reassemble-Keeps s h (z refl)
    after_wait-Keeps false s h z c = record { counted = c refl; delays = h }

    wait_and_retry-Keeps :
        (structural : Bool) (delay : ℕ) (s : State)
        → Delays s.waits
        → (delay ≡ (
            if structural && leb config.struct_output_fast_retries (failures_since s.waits)
            then config.struct_output_slow_retry_interval
            else config.llm_failure_retry_interval))
        → s.struct_attempt
          ≡ (if structural then suc (failures_since s.waits) else failures_since s.waits)
        → Keeps (wait_and_retry python digit config world structural delay s)
    unfolding wait_and_retry
    wait_and_retry-Keeps structural delay s h d c =
        let r = wait_or_adrenalin delay (world.slices s.round) s.runtime.buffer in
        after_wait-Keeps r.0 (waited python digit config world structural delay r s) (d, h)
          (λ e. rw e refl) λ e. rw e c

    struct_delay_lem :
        (n : ℕ)
        → struct_delay python digit config world (suc n) ≡ (
            if leb config.struct_output_fast_retries n
            then config.struct_output_slow_retry_interval
            else config.llm_failure_retry_interval)
    unfolding struct_delay
    struct_delay_lem n = ground arith

    validate_answer-Keeps :
        (raw : String) (o : Outcome String ParsedSelfOutput) (s : State)
        → Tracks s
        → Keeps (validate_answer python digit config world raw o s)
    unfolding validate_answer
    validate_answer-Keeps raw (raised x) s t = t.delays
    validate_answer-Keeps raw (returned parsed) s t =
        if-both Keeps (is_complete python digit raw parsed) _ _
          (if-both Keeps s.runtime.stopped _ _ t.delays t.delays)
          (wait_and_retry-Keeps true _ (record s { struct_attempt = suc s.struct_attempt }) t.delays
            (struct_delay_lem s.struct_attempt
              ∙ ap
                  (λ n.
                    if leb config.struct_output_fast_retries n
                    then config.struct_output_slow_retry_interval
                    else config.llm_failure_retry_interval)
                  t.counted)
            (ap suc t.counted))

    with_reply-Keeps :
        (o : Outcome String String) (s : State)
        → Tracks s
        → Keeps (with_reply python digit config world o s)
    unfolding with_reply
    with_reply-Keeps (raised x) s t =
        wait_and_retry-Keeps false _ (record s { http_attempt = suc s.http_attempt }) t.delays refl
          t.counted
    with_reply-Keeps (returned raw) s t =
        validate_answer-Keeps raw (parse_self_output digit raw) s t

    loop_round-Keeps : (s : State) → Tracks s → Keeps (loop_round python digit config world s)
    unfolding loop_round
    loop_round-Keeps s t = if-both Keeps s.runtime.stopped _ _ t.delays (
        with_reply-Keeps (world.chat s.round s.prompt)
          (record s { runtime = world.in_chat s.round s.runtime })
          (record { counted = t.counted; delays = t.delays }))

    -- Where the loop stands behind `n` rounds, or behind the round that ended it.
    unfoldable pub after_rounds : ℕ → State → Step
    after_rounds zero s = again s
    after_rounds (suc n) s = elim (loop_round python digit config world s) [
      | finished r t ↦ finished r t
      | again t ↦ after_rounds n t
    ]

    run_self-after_rounds :
        (n : ℕ) (s : State) → run_self python digit config world n s ≡ end_of (after_rounds n s)
    unfolding run_self after_rounds
    run_self-after_rounds zero s = refl
    run_self-after_rounds (suc n) s =
        elim (Step-cases python digit config world (loop_round python digit config world s)) [
          | inl (q, v, e) ↦ rw (e, run_self, after_rounds) refl
          | inr (v, e) ↦ rw (e, run_self, after_rounds) (run_self-after_rounds n v)
        ]

    Keeps-state : (st : Step) → Keeps st → Delays (state_of st).waits
    Keeps-state (finished r t) k = k
    Keeps-state (again t) k = k.delays

    after_rounds-Keeps : (n : ℕ) (s : State) → Tracks s → Keeps (after_rounds n s)
    unfolding after_rounds
    after_rounds-Keeps zero s t = t
    after_rounds-Keeps (suc n) s t =
        elim (Step-cases python digit config world (loop_round python digit config world s)) [
          | inl (q, v, e) ↦ rw (e, after_rounds) (subst Keeps e (loop_round-Keeps s t))
          | inr (v, e) ↦
              rw (e, after_rounds) (after_rounds-Keeps n v (subst Keeps e (loop_round-Keeps s t)))
        ]

    -- After any number of rounds of a beat's loop, whether it has ended or goes on for ever, each wait
    -- so far behind a failed call, and each behind one of the first answers with a tag missing, has the
    -- interval of the fast retries; a wait behind such an answer has the slow one once as many of
    -- them as the fast retries came before it since an urgent stimulus last cut a wait short. The
    -- loop returns on a fuel exactly where it has ended after that many rounds, and what it
    -- returns is the state it ended in.
    pub run_self-Delays :
        (n : ℕ) (s : State)
        → s.struct_attempt ≡ 0
        → s.waits ≡ []
        → Delays (state_of (after_rounds n s)).waits
          × (run_self python digit config world n s ≡ end_of (after_rounds n s))
    run_self-Delays n s z w = (
      Keeps-state _ (
          after_rounds-Keeps n s
            (record { counted = z ∙ ap failures_since (sym w); delays = subst Delays (sym w) tt })),
      run_self-after_rounds n s,
    )
