-- ===== src/Stimuli/Channels/Paused.antt =====
-- A sleep: `pause_non_urgent` at its start and `resume_all` at its end.
use krakey_bot.Base.{
  ℕ, String, Bool, false, ◌≡◌, refl, ap, ◌∙◌, ◌&&◌, ◌||◌, not, List, [], ◌∷◌, length, any, elem,
  elem-add, elem-discard, add, discard, Bool-cases, inl, inr, ==_iff, ◌==◌, arith, string_eq,
}
use krakey_bot.Base.Dict
use krakey_bot.Base.Dict.{get_of_has}
use krakey_bot.Base.Action.{returned}
use krakey_bot.Stimuli.Channels.{
  Channel, Channels, World, hook, for_each, pause_if_calm, pause_non_urgent, lookup, resume_names,
  resume_all, started, stopped,
}
use krakey_bot.Stimuli.Channels.Fits.{AllListed, AllListed-of, AllListed-at}
use krakey_bot.Stimuli.Channels.Registered.{IsConsistent}

-- A calm channel is named `n`.
abbrev pub calm : String → List Channel → Bool
calm n = any (λ c. c.name == n && not c.default_adrenalin)

module _ (raises : World) (quiet : (k : ℕ) → raises k ≡ false) where
  pause_if_calm_lem :
      (c : Channel) (s : Channels)
      → (t : Channels) × (pause_if_calm raises c s ≡ (returned tt, t))
        × (t.channels ≡ s.channels)
        × ((n : String) → elem n t.running ≡ (elem n s.running && not (calm n (c ∷ []))))
        × ((n : String)
            → elem n t.paused ≡ (elem n s.paused || elem n s.running && calm n (c ∷ [])))
  unfolding pause_if_calm hook
  pause_if_calm_lem c s = elim (Bool-cases (not c.default_adrenalin && elem c.name s.running)) [
    | inl e ↦ (
      record s {
        running = discard c.name s.running;
        paused = add c.name s.paused;
        calls = stopped c.name ∷ s.calls;
      },
      rw (e, quiet) refl,
      refl,
      λ n. ground (arith, e, elem-discard n c.name s.running, ==_iff c.name n),
      λ n. ground (arith, e, elem-add n c.name s.paused, ==_iff c.name n),
    )
    | inr e ↦ (
      s,
      rw e refl,
      refl,
      λ n. ground (arith, e, ==_iff c.name n),
      λ n. ground (arith, e, ==_iff c.name n),
    )
  ]

  -- What `pause_non_urgent` leaves running and paused, from `s` to `t`, over the channels `cs`.
  record Pauses (cs : List Channel) (s t : Channels) : Type 0 where
    same : t.channels ≡ s.channels
    running : (n : String) → elem n t.running ≡ (elem n s.running && not (calm n cs))
    paused : (n : String) → elem n t.paused ≡ (elem n s.paused || elem n s.running && calm n cs)

  pause_loop :
      (cs : List Channel) (s : Channels)
      → (t : Channels) × (for_each raises (pause_if_calm raises) cs s ≡ (returned tt, t))
        × Pauses cs s t
  unfolding for_each
  pause_loop [] s =
      (s, refl, record { same = refl; running = λ n. ground arith; paused = λ n. ground arith })
  pause_loop (c ∷ cs) s =
      let (t, stops, same, running, paused) = pause_if_calm_lem c s in
      let (u, goes, rest) = pause_loop cs t in
      (
        u,
        rw stops goes,
        record {
          same = rest.same ∙ same;
          running = λ n. ground (arith, running n, paused n, rest.running n);
          paused = λ n. ground (arith, running n, paused n, rest.paused n);
        },
      )

  resume_loop :
      (ns : List String) (s : Channels)
      → AllListed s.channels ns
      → (t : Channels) × (resume_names raises ns s ≡ (returned tt, t))
        × ((n : String) → elem n t.running ≡ (elem n ns || elem n s.running))
        × ((n : String) → elem n t.paused ≡ (elem n s.paused && not (elem n ns)))
  unfolding resume_names lookup hook
  resume_loop [] s h = (s, refl, λ n. refl, λ n. ground arith)
  resume_loop (n ∷ ns) s h =
      let (c, found) = get_of_has n s.channels h.0 in
      let later = record s {
        running = add n s.running;
        paused = discard n s.paused;
        calls = started c.name ∷ s.calls;
      } in
      let (t, goes, running, paused) = resume_loop ns later h.1 in
      (
        t,
        ground (arith, found, quiet (length s.calls), goes),
        λ m. ground (arith, running m, elem-add m n s.running, ==_iff n m),
        λ m. ground (arith, paused m, elem-discard m n s.paused, ==_iff n m),
      )

  -- Where no hook raises and nothing was paused: while asleep exactly the calm ones of the channels
  -- that ran are stopped, and after the wake-up what runs is what ran before, with nothing paused.
  pub sleep_round_trip :
      (s : Channels)
      → IsConsistent s
      → ((n : String) → elem n s.paused ≡ false)
      → let asleep = (pause_non_urgent raises s).1 in
        let awake = (resume_all raises asleep).1 in
        ((n : String)
          → elem n asleep.running ≡ (elem n s.running && not (calm n (Dict.values s.channels))))
        × ((n : String) → elem n awake.running ≡ elem n s.running)
        × ((n : String) → elem n awake.paused ≡ false)
  unfolding pause_non_urgent resume_all
  sleep_round_trip s v none_paused =
      let (t, stops, p) = pause_loop (Dict.values s.channels) s in
      let (u, goes, running, paused) = resume_loop t.paused t (listed t p) in
      rw (ap (λ r. r.1) stops) (
        rw (ap (λ r. r.1) goes) (
          p.running,
          λ n. ground (arith, running n, p.running n, p.paused n, none_paused n),
          λ n. ground (arith, paused n),
        ))
    where
      listed : (t : Channels) → Pauses (Dict.values s.channels) s t → AllListed t.channels t.paused
      listed t p = AllListed-of t.channels t.paused λ n h.
          rw p.same
            (AllListed-at s.channels s.running v.1 n (ground (arith, p.paused n, none_paused n)))
