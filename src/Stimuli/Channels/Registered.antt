-- ===== src/Stimuli/Channels/Registered.antt =====
-- Only registered channels run or are paused, so that resuming never misses a channel.
use krakey_bot.Base.{
  String, true, false, ◌≡◌, refl, List, [], ◌∷◌, elem, elem-discard, Bool-cases, inl, inr, ==_iff,
  arith, string_eq, add, if◌then◌else◌, discard, Option-cases, ◌≢◌, ◌==◌,
}
use krakey_bot.Base.Dict
use krakey_bot.Stimuli.Channels.Fits.{
  Named, Fits, AllHave, AllListed, AllListed-of, values-AllHave, start_unless_running-Fits,
  for_each-Fits, pause_if_calm-Fits, stop_if_running-Fits, resume_names-Fits,
}
use krakey_bot.Base.Dict.{get_of_has, Dict, get-put, get-pop, has-put, has-pop}
use krakey_bot.Base.Action.{returned, raised, Preserves, Preserves-test}
use krakey_bot.Stimuli.Channels.{
  Channel, Channels, Error, missing_key, World, Method, Call, registers, starts_all, pauses,
  resumes, stops_all, starts_one, deregisters, init, register, hook, for_each, start_all, start_one,
  pause_non_urgent, lookup, resume_names, resume_all, stop_all, stop_quietly, deregister, step, run,
  started, stopped,
}

-- The whole invariant: of the channels, of what runs and of what is paused.
record Consistency (s : Channels) : Type 0 where
  pub named : Named s.channels
  pub running : (n : String) → elem n s.running ≡ true → Dict.has n s.channels ≡ true
  pub paused : (n : String) → elem n s.paused ≡ true → Dict.has n s.channels ≡ true

-- The same, as it is stated.
abbrev pub IsConsistent : Channels → Type 0
IsConsistent s = Named s.channels × AllListed s.channels s.running × AllListed s.channels s.paused

fits : {s : Channels} → Consistency s → Fits s.channels s
fits v = record { same = refl; running = v.running; paused = v.paused }

consistent : {d : Dict String Channel} {s : Channels} → Named d → Fits d s → Consistency s
consistent named v = record {
  named = rw v.same named;
  running = λ n e. rw v.same (v.running n e);
  paused = λ n e. rw v.same (v.paused n e);
}

put-Named : (c : Channel) (d : Dict String Channel) → Named d → Named (Dict.put c.name c d)
put-Named c [] h = (refl, tt)
put-Named c ((n, b) ∷ d) h = ground (arith, put-Named c d h.1, ==_iff n c.name)

pop-Named : (n : String) (d : Dict String Channel) → Named d → Named (Dict.pop n d)
pop-Named n [] h = tt
pop-Named n ((m, c) ∷ d) h = ground (arith, pop-Named n d h.1)

register-Consistency : (c : Channel) → Preserves {E = Error} Consistency (register c)
unfolding register
register-Consistency c =
    Preserves-test (λ s. Dict.has c.name s.channels) _ _ (λ s e v. v)
      (λ s e v. record {
        named = put-Named c s.channels v.named;
        running = λ n h. rw has-put (ground (arith, v.running n h));
        paused = λ n h. rw has-put (ground (arith, v.paused n h));
      })

module _ (raises : World) where
  stop_quietly_lem :
      (n : String) (c : Channel) (s : Channels)
      → (t : Channels) × (stop_quietly raises n c s ≡ (returned tt, t))
        × (t.channels ≡ s.channels)
        × (t.paused ≡ s.paused)
        × ((m : String) → elem m t.running ≡ (if n == m then false else elem m s.running))
  unfolding stop_quietly hook
  stop_quietly_lem n c s = elim (Bool-cases (elem n s.running)) [
    | inl e ↦ (
      record s { running = discard n s.running; calls = stopped c.name ∷ s.calls },
      rw e (ground arith),
      refl,
      refl,
      λ m. elem-discard m n s.running,
    )
    | inr e ↦ (s, rw e, refl, refl, λ m. ground (arith, ==_iff n m))
  ]

  deregister-Consistency : (n : String) → Preserves {E = Error} Consistency (deregister raises n)
  unfolding deregister
  deregister-Consistency n = record {
    at = λ s v. elim (Option-cases (Dict.get n s.channels)) [
      | inl e ↦ rw (e, deregister) v
      | inr (c, e) ↦
          let popped = record s { channels = Dict.pop n s.channels } in
          let (t, stops, same, paused, running) = stop_quietly_lem n c popped in
          rw (e, deregister)
            (rw (stops) (record {
              named = rw same (pop-Named n s.channels v.named);
              running = λ m h.
                  rw same (rw (has-pop n m s.channels) (ground (arith, running m, v.running m)));
              paused = λ m h. rw same (
                  rw (has-pop n m s.channels)
                    (ground (arith, elem-discard m n t.paused, v.paused m)));
            }))
    ];
  }

  module _ (s : Channels) (v : Consistency s) where
    all_have : AllHave s.channels (Dict.values s.channels)
    all_have = values-AllHave s.channels s.channels v.named (λ n h. h)

    loop-Consistency :
        (body : Channel → Method (Unit {0}))
        → ((c : Channel)
            → Dict.has c.name s.channels ≡ true
            → Preserves {E = Error} (Fits s.channels) (body c))
        → Consistency (for_each raises body (Dict.values s.channels) s).1
    loop-Consistency body keeps =
        consistent v.named ((for_each-Fits raises s.channels body keeps _ all_have).at s (fits v))

    start_one-Consistency : (n : String) → Consistency (start_one raises n s).1
    unfolding start_one
    start_one-Consistency n = elim (Bool-cases (Dict.has n s.channels)) [
      | inl e ↦
          rw e
            (consistent v.named ((start_unless_running-Fits raises s.channels n e).at s (fits v)))
      | inr e ↦ rw e v
    ]

  step-Consistency : (s : Channels) (c : Call) → Consistency s → Consistency (step raises s c)
  unfolding step start_all pause_non_urgent stop_all resume_all
  step-Consistency s (registers c) v = (register-Consistency c).at s v
  step-Consistency s starts_all v =
      loop-Consistency s v _ (λ c. start_unless_running-Fits raises s.channels c.name)
  step-Consistency s pauses v = loop-Consistency s v _ (pause_if_calm-Fits raises s.channels)
  step-Consistency s resumes v = consistent v.named (
      (resume_names-Fits raises s.channels s.paused (AllListed-of s.channels s.paused v.paused)).at
        s (fits v))
  step-Consistency s stops_all v =
      loop-Consistency s v _ (λ c _. stop_if_running-Fits raises s.channels c)
  step-Consistency s (starts_one n) v = start_one-Consistency s v n
  step-Consistency s (deregisters n) v = (deregister-Consistency n).at s v

  run_from-Consistency :
      (s : Channels) (cs : List Call) → Consistency s → Consistency (run raises s cs)
  unfolding run
  run_from-Consistency s [] v = v
  run_from-Consistency s (c ∷ cs) v =
      run_from-Consistency (step raises s c) cs (step-Consistency s c v)

  run-Consistency : (cs : List Call) → Consistency (run raises init cs)
  run-Consistency cs =
      run_from-Consistency init cs (record { named = tt; running = λ n h. cc; paused = λ n h. cc })

  -- After any calls of the methods, whichever of the channels' hooks raise, every channel is stored
  -- under its own name, and what runs or is paused is registered.
  pub run-IsConsistent : (cs : List Call) → IsConsistent (run raises init cs)
  run-IsConsistent cs =
      let s = run raises init cs in
      let v = run-Consistency cs in
      (
        v.named,
        AllListed-of s.channels s.running v.running,
        AllListed-of s.channels s.paused v.paused,
      )

  resume_names_found :
      (d : Dict String Channel) (ns : List String) (s : Channels)
      → AllListed d ns
      → s.channels ≡ d
      → (resume_names raises ns s).0 ≢ raised missing_key
  unfolding resume_names lookup hook
  resume_names_found d [] s h e = λ x. cc
  resume_names_found d (n ∷ ns) s h e =
      let (c, found) = get_of_has n s.channels (rw e h.0) in
      let later = record s {
        running = add n s.running;
        paused = discard n s.paused;
        calls = started c.name ∷ s.calls;
      } in
      ground (arith, found, resume_names_found d ns later h.1 e)

  -- So a wake-up never fails for a channel that is gone: after any calls, with any raises,
  -- `resume_all` does not raise the KeyError of its lookup.
  pub resume_all-ne-missing_key :
      (cs : List Call) → (resume_all raises (run raises init cs)).0 ≢ raised missing_key
  unfolding resume_all
  resume_all-ne-missing_key cs =
      let s = run raises init cs in
      let v = run-Consistency cs in
      resume_names_found s.channels s.paused s (AllListed-of s.channels s.paused v.paused) refl
