-- ===== src/Heartbeat/RunSelf/Rounds.antt =====
-- That the loop ends once the model gives a complete answer, and with what.
use Prim.Native.Char.{Char}
use krakey_bot.Base.{
  ℕ, zero, suc, ◌+◌, ◌≤◌, ◌<◌, ◌≡◌, ◌⊎◌, inl, inr, refl, sym, subst, String, Bool, true, false,
  List, Option, none, some, elem, string_eq, nat_beq, if-split, if-both, Bool-cases, arith,
}
use krakey_bot.Base.Action.{Outcome, returned, raised}
use krakey_bot.ToolCalls.{Python}
use krakey_bot.SelfOutput.{ParsedSelfOutput, parse_self_output}
use krakey_bot.Stimuli.{Stimulus}
use krakey_bot.Heartbeat.Commands
use krakey_bot.Heartbeat.Commands.{
  Phase, CommandAction, kill_action, sleep_action, no_action, Runtime, phase_handle_commands,
}
use krakey_bot.Heartbeat.Idle.{wait_or_adrenalin}
use krakey_bot.Heartbeat.RunSelf.{
  IdleConfig, World, State, Result, answered, abandoned, failed, Step, finished, again,
  raw_requests_builtin_sleep, is_complete, folded, slept, commanded, reassemble_on_adrenalin,
  waited, after_wait, wait_and_retry, validate_answer, with_reply, loop_round, run_self,
}

module _ (python : Python) (digit : Char → Option ℕ) where
  -- An answer that is handed on was read by the parser, has its sections, and finds the runtime running.
  abbrev pub Answer : Result → State → Type 0
  Answer (answered raw parsed) s =
      (parse_self_output digit raw ≡ returned parsed)
      × (elem "THINKING" parsed.found_tags ≡ true)
      × (elem "DECISION" parsed.found_tags ≡ true)
      × ((raw_requests_builtin_sleep python digit raw ≡ true)
          ⊎ (elem "IDLE" parsed.found_tags ≡ true))
      × (s.runtime.stopped ≡ false)
  Answer abandoned s = Unit
  Answer failed s = Unit

  -- A step ends with a valid answer or with none, or leaves `n` rounds behind.
  abbrev Ok : ℕ → Step → Type 0
  Ok n (finished r t) = Answer r t
  Ok n (again t) = t.round ≡ n

  is_complete-tags :
      (raw : String) (parsed : ParsedSelfOutput)
      → is_complete python digit raw parsed ≡ true
      → (elem "THINKING" parsed.found_tags ≡ true)
        × (elem "DECISION" parsed.found_tags ≡ true)
        × ((raw_requests_builtin_sleep python digit raw ≡ true)
            ⊎ (elem "IDLE" parsed.found_tags ≡ true))
  unfolding is_complete
  is_complete-tags raw parsed h = (
    ground arith,
    ground arith,
    elim (Bool-cases (raw_requests_builtin_sleep python digit raw)) [
      | inl e ↦ inl e
      | inr e ↦ inr (ground (arith, h, e))
    ],
  )

  module _ (config : IdleConfig) (world : World) where
    folded-Ok :
        (o : Outcome String String) (l : List Stimulus) (s : State)
        → Ok s.round (folded python digit config world o l s)
    folded-Ok (raised x) l s = tt
    folded-Ok (returned prompt) l s = refl

    slept-Ok :
        (n : ℕ) (o : Outcome String Runtime) (s : State)
        → Ok n (slept python digit config world o s)
    slept-Ok n (raised x) s = tt
    slept-Ok n (returned rt) s = tt

    commanded-Ok :
        (o : Outcome Commands.Error Phase) (s : State)
        → Ok s.round (commanded python digit config world o s)
    commanded-Ok (raised x) s = tt
    commanded-Ok (returned p) s = go p.triggered refl
      where
        go :
            (a : Option CommandAction)
            → p.triggered ≡ a
            → Ok s.round (commanded python digit config world (returned p) s)
        go none e = rw e (folded-Ok _ _ s)
        go (some kill_action) e = rw e tt
        go (some sleep_action) e = rw e (slept-Ok s.round (world.memory_sleep s.round s.runtime) s)
        go (some no_action) e = rw e (folded-Ok _ _ s)

    reassemble-Ok : (s : State) → Ok s.round (reassemble_on_adrenalin python digit config world s)
    unfolding reassemble_on_adrenalin
    reassemble-Ok s = commanded-Ok _ _

    after_wait-Ok : (b : Bool) (s : State) → Ok s.round (after_wait python digit config world b s)
    unfolding after_wait
    after_wait-Ok true s = reassemble-Ok s
    after_wait-Ok false s = refl

    wait_and_retry-Ok :
        (b : Bool) (d : ℕ) (s : State)
        → Ok (suc s.round) (wait_and_retry python digit config world b d s)
    unfolding wait_and_retry
    wait_and_retry-Ok b d s =
        let r = wait_or_adrenalin d (world.slices s.round) s.runtime.buffer in
        after_wait-Ok r.0 (waited python digit config world b d r s)

    validate_answer-Ok :
        (raw : String) (o : Outcome String ParsedSelfOutput) (s : State)
        → parse_self_output digit raw ≡ o
        → Ok (suc s.round) (validate_answer python digit config world raw o s)
    unfolding validate_answer
    validate_answer-Ok raw (raised x) s e = tt
    validate_answer-Ok raw (returned parsed) s e =
        if-split (Ok (suc s.round)) (is_complete python digit raw parsed) _ _
          (λ c.
            if-split (Ok (suc s.round)) s.runtime.stopped _ _ (λ _. tt)
              λ live.
                let (thinking, decision, idle) = is_complete-tags raw parsed c in
                (e, thinking, decision, idle, live))
          λ _. wait_and_retry-Ok true _ (record s { struct_attempt = suc s.struct_attempt })

    with_reply-Ok :
        (o : Outcome String String) (s : State)
        → Ok (suc s.round) (with_reply python digit config world o s)
    unfolding with_reply
    with_reply-Ok (raised x) s =
        wait_and_retry-Ok false _ (record s { http_attempt = suc s.http_attempt })
    with_reply-Ok (returned raw) s = validate_answer-Ok raw _ s refl

    loop_round-Ok : (s : State) → Ok (suc s.round) (loop_round python digit config world s)
    unfolding loop_round
    loop_round-Ok s = if-both (Ok (suc s.round)) s.runtime.stopped _ _ tt (
        with_reply-Ok (world.chat s.round s.prompt)
          (record s { runtime = world.in_chat s.round s.runtime }))

    abbrev pub Finished : Step → Type 0
    Finished st = (r : Result) × (t : State) × (st ≡ finished r t)

    pub Step-cases : (st : Step) → Finished st ⊎ ((t : State) × (st ≡ again t))
    Step-cases (finished r t) = inl (r, t, refl)
    Step-cases (again t) = inr (t, refl)

    complete-Finished :
        (raw : String) (parsed : ParsedSelfOutput) (s : State)
        → is_complete python digit raw parsed ≡ true
        → Finished (validate_answer python digit config world raw (returned parsed) s)
    unfolding validate_answer
    complete-Finished raw parsed s h =
        rw h (
          if-both Finished s.runtime.stopped _ _ (abandoned, s, refl)
            (answered raw parsed, s, refl))

    loop_round-Finished :
        (raw : String) (parsed : ParsedSelfOutput) (s : State)
        → world.chat s.round s.prompt ≡ returned raw
        → parse_self_output digit raw ≡ returned parsed
        → is_complete python digit raw parsed ≡ true
        → Finished (loop_round python digit config world s)
    unfolding loop_round with_reply
    loop_round-Finished raw parsed s a p h =
        if-both Finished s.runtime.stopped _ _ (abandoned, s, refl)
          (rw (a, with_reply, p)
            (complete-Finished raw parsed (record s { runtime = world.in_chat s.round s.runtime })
              h))

    -- Where the model answers the call `k` with a complete answer, whatever the prompt is by then, the loop
    -- ends with that round or an earlier one, however the calls before failed and whatever
    -- interrupted the waits. An answer that it hands on was read by the parser, has
    -- the sections that are required, and finds that no stop was requested.
    pub run_self_ends :
        (k : ℕ) (raw : String) (parsed : ParsedSelfOutput)
        → ((prompt : String) → world.chat k prompt ≡ returned raw)
        → parse_self_output digit raw ≡ returned parsed
        → is_complete python digit raw parsed ≡ true
        → (fuel : ℕ) (s : State) → s.round ≤ k
        → k < s.round + fuel
        → (r : Result) × (t : State) × (run_self python digit config world fuel s ≡ some (r, t))
          × Answer r t
    unfolding run_self
    run_self_ends k raw parsed a p h zero s lo hi = absurd (omega arith)
    run_self_ends k raw parsed a p h (suc fuel) s lo hi =
        let ok = loop_round-Ok s in
        elim (Step-cases (loop_round python digit config world s)) [
          | inl (r, t, e) ↦ (r, t, rw (e, run_self) refl, subst (Ok (suc s.round)) e ok)
          | inr (t, e) ↦
              let later : t.round ≡ suc s.round = subst (Ok (suc s.round)) e ok in
              elim (Bool-cases (nat_beq s.round k)) [
                | inl same ↦
                    let here : s.round ≡ k = ground (arith, same) in
                    let (r, u, f) =
                      loop_round-Finished raw parsed s
                        (subst (λ n. world.chat n s.prompt ≡ returned raw) (sym here) (a s.prompt))
                        p h in
                    absurd (cc (e, f))
                | inr more ↦
                    let (r, u, run, ans) =
                      run_self_ends k raw parsed a p h fuel t (ground (arith, later, more))
                        (ground (arith, later)) in
                    (r, u, rw (e, run_self) run, ans)
              ]
        ]
