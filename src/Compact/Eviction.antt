-- ===== src/Compact/Eviction.antt =====
-- What a call of `compact_if_needed` evicts, and how it ends.
use krakey_bot.Base.{
  ℕ, zero, suc, ◌*◌, ◌≤◌, ◌≡◌, ◌⊎◌, refl, ap, sym, subst, ◌∙◌, Bool, true, false, not, is_empty,
  ◌&&◌, List, [], ◌∷◌, ◌++◌, some, map, length, take, drop, Bool-cases, inl, inr, string_eq,
  nat_beq, ltb, arith, String,
}
use mathlib.Core.List.{append_assoc, append-nil}
use krakey_bot.Base.Action.{Outcome, returned, raised, is_raised, Outcome-cases}
use krakey_bot.History.{
  ExplicitHistoryRound, SlidingWindow, written, os_error, pop_oldest, persist, needs_compact,
}
use krakey_bot.History.Stored.{persist-returns}
use krakey_bot.Compact.{
  Error, World, Compactor, compact_round, chunks_by_char_budget, split_and_compact_single_round,
  compact_loop, compact_if_needed, split_if_single, is_over, goes_on, pop, full_text, synthetic,
  max,
}
use krakey_bot.Compact.Rounds.{compact_round-Rests, compact_chunks_lem}

module _ (world : World) where
  -- The chunks into which a round is cut.
  abbrev pub chunks_of : ℕ → ExplicitHistoryRound → List String
  unfolding chunks_by_char_budget
  chunks_of split r = chunks_by_char_budget (full_text world r) (max world 80 (split * 4))

  -- The rounds `l` are over the limits of the window.
  abbrev pub over_at : SlidingWindow → List ExplicitHistoryRound → Bool
  over_at w l = needs_compact world.estimate_tokens (record w { rounds = l })

  -- In front of each of the first `n` pops the rounds are over the limits, and more than one.
  abbrev pub all_over : SlidingWindow → ℕ → List ExplicitHistoryRound → Bool
  all_over w zero l = true
  all_over w (suc n) [] = false
  all_over w (suc n) (r ∷ rs) = over_at w (r ∷ rs) && (not (is_empty rs) && all_over w n rs)

  all_over-same :
      (v w : SlidingWindow) (n : ℕ) (l : List ExplicitHistoryRound)
      → ((l : List ExplicitHistoryRound) → over_at v l ≡ over_at w l)
      → all_over v n l ≡ all_over w n l
  all_over-same v w zero l h = refl
  all_over-same v w (suc n) [] h = refl
  all_over-same v w (suc n) (r ∷ rs) h =
      ap (λ b. b && (not (is_empty rs) && all_over v n rs)) (h (r ∷ rs))
      ∙ ap (λ b. over_at w (r ∷ rs) && (not (is_empty rs) && b)) (all_over-same v w n rs h)

  -- What is begun, from `c` to `d` with the outcome `o`, where `taken` are the rounds that the loop
  -- takes off the window and `left` are the others.
  pub data Evicted (split : ℕ) (c d : Compactor) (o : Outcome Error (Unit {0}))
      (taken left : List ExplicitHistoryRound) : Type 0 where
    whole : d.started ≡ c.started ++ taken → d.window.rounds ≡ left → Evicted split c d o taken left
    cut :
        (r : ExplicitHistoryRound) (m : ℕ)
        → left ≡ r ∷ []
        → over_at c.window (r ∷ []) ≡ true
        → d.window.rounds ≡ []
        → d.started ≡ c.started ++ (taken ++ map (synthetic world r) (take m (chunks_of split r)))
        → (is_raised o ≡ true) ⊎ (take m (chunks_of split r) ≡ chunks_of split r)
        → Evicted split c d o taken left

  -- How a call of `compact_if_needed` goes: at most `max_pops` whole rounds are taken off, the oldest ones,
  -- each while more than one is over the limits, and a single one that is left over them is cut; at the
  -- end an error is raised, or the window is within its limits, or empty, or the pops are used up.
  pub record Evicts (split max_pops : ℕ) (c : Compactor) (od : Outcome Error (Unit {0}) × Compactor)
      : Type 0 where
    pub pops : ℕ
    pub bounded : pops ≤ max_pops
    pub needed : all_over c.window pops c.window.rounds ≡ true
    pub evicted : Evicted split c od.1 od.0 (take pops c.window.rounds) (drop pops c.window.rounds)
    pub ends :
        (is_raised od.0 ≡ true)
        ⊎ (is_over world od.1 ≡ false)
        ⊎ (od.1.window.rounds ≡ [])
        ⊎ ((pops ≡ max_pops) × (goes_on world od.1 ≡ true))

  -- An end of the loop without a pop, and one with another.
  still :
      (split max_pops : ℕ) (c : Compactor)
      → (is_over world c ≡ false)
        ⊎ (c.window.rounds ≡ [])
        ⊎ ((0 ≡ max_pops) × (goes_on world c ≡ true))
      → Evicts split max_pops c (returned tt, c)
  still split max_pops c h = record {
    pops = 0;
    bounded = omega arith;
    needed = refl;
    evicted = whole (sym (append-nil c.started)) refl;
    ends = inr h;
  }

  failed : (split max_pops : ℕ) (x : Error) (c : Compactor) → Evicts split max_pops c (raised x, c)
  failed split max_pops x c = record {
    pops = 0;
    bounded = omega arith;
    needed = refl;
    evicted = whole (sym (append-nil c.started)) refl;
    ends = inl refl;
  }

  abbrev pub Persists : Type 0
  Persists = (k : ℕ) → (world.fate k ≡ written) ⊎ (world.fate k ≡ os_error)

  module _ (persists : Persists) where
    pub pop_lem :
        (r : ExplicitHistoryRound) (rs : List ExplicitHistoryRound) (c : Compactor)
        → c.window.rounds ≡ r ∷ rs
        → ((pop world c).0 ≡ returned (some r))
          × ((pop world c).1.window.rounds ≡ rs)
          × ((pop world c).1.started ≡ c.started)
    unfolding pop pop_oldest
    pop_lem r rs c e =
        let v : SlidingWindow = record c.window { rounds = rs } in
        let (goes, same) = persist-returns world.fate v (persists v.writes) in
        (rw (e, pop, pop_oldest, goes) refl, rw (e, pop, pop_oldest, goes) same, refl)

    -- The limits are those of before.
    pop-over_at :
        (c : Compactor) (r : ExplicitHistoryRound) (rs l : List ExplicitHistoryRound)
        → c.window.rounds ≡ r ∷ rs
        → over_at (pop world c).1.window l ≡ over_at c.window l
    unfolding pop pop_oldest persist needs_compact
    pop-over_at c r rs l e = elim (Bool-cases c.window.has_state_path) [
      | inr p ↦ rw (e, p, pop, pop_oldest, persist) refl
      | inl p ↦ elim (persists c.window.writes) [
        | inl f ↦ rw (e, p, f, pop, pop_oldest, persist) refl
        | inr f ↦ rw (e, p, f, pop, pop_oldest, persist) refl
      ]
    ]

    split_lem :
        (split : ℕ) (r : ExplicitHistoryRound) (c : Compactor)
        → c.window.rounds ≡ r ∷ []
        → let (o, d) = split_and_compact_single_round world split c in
          (m : ℕ) × (d.window.rounds ≡ [])
          × (d.started ≡ c.started ++ map (synthetic world r) (take m (chunks_of split r)))
          × ((is_raised o ≡ true) ⊎ (take m (chunks_of split r) ≡ chunks_of split r))
    unfolding split_and_compact_single_round
    split_lem split r c e =
        let (goes, left, same) = pop_lem r [] c e in
        let (m, begun, keeps, ends) =
          compact_chunks_lem world r (chunks_of split r) (pop world c).1 in
        (
          m,
          rw (goes, split_and_compact_single_round) (ap (λ w. w.rounds) keeps ∙ left),
          rw (goes, split_and_compact_single_round)
              (begun ∙ ap (λ l. l ++ map (synthetic world r) (take m (chunks_of split r))) same),
          rw (goes, split_and_compact_single_round) ends,
        )

    -- The end of the loop, where there is not more than one round over the limits.
    split_if_single_lem :
        (split max_pops : ℕ) (c : Compactor) (rs : List ExplicitHistoryRound)
        → c.window.rounds ≡ rs
        → goes_on world c ≡ false
        → Evicts split max_pops c (split_if_single world split c)
    unfolding split_if_single
    split_if_single_lem split max_pops c rs h stops = elim (Bool-cases (is_over world c)) [
      | inl over ↦ go rs h over (rw (over, h) at stops)
      | inr fits ↦ rw (fits, split_if_single) (still split max_pops c (inl fits))
    ]
      where
        go :
            (rs : List ExplicitHistoryRound)
            → c.window.rounds ≡ rs
            → is_over world c ≡ true
            → ltb 1 (length rs) ≡ false
            → Evicts split max_pops c (split_if_single world split c)
        go [] e over few =
            let none_left : (is_over world c && nat_beq (length c.window.rounds) 1) ≡ false =
              rw (over, e) refl in
            rw (none_left, split_if_single) (still split max_pops c (inr (inl e)))
        go (r ∷ []) e over few =
            let (m, emptied, begun, all) = split_lem split r c e in
            let single : (is_over world c && nat_beq (length c.window.rounds) 1) ≡ true =
              rw (over, e) refl in
            rw (single, split_if_single)
              (record {
                pops = 0;
                bounded = omega arith;
                needed = refl;
                evicted = cut r m e (sym (ap (over_at c.window) e) ∙ over) emptied begun all;
                ends = inr (inr (inl emptied));
              })
        go (r ∷ q ∷ rs) e over few = absurd (ground arith)

    -- One more pop in front of what the rest of the loop does.
    one_more :
        (split left : ℕ) (r : ExplicitHistoryRound) (rs : List ExplicitHistoryRound)
        (c b : Compactor) (od : Outcome Error (Unit {0}) × Compactor)
        → c.window.rounds ≡ r ∷ rs
        → b.window.rounds ≡ rs
        → b.started ≡ c.started ++ r ∷ []
        → ((l : List ExplicitHistoryRound) → over_at b.window l ≡ over_at c.window l)
        → goes_on world c ≡ true
        → Evicts split left b od
        → Evicts split (suc left) c od
    one_more split left r rs c b od e left_over begun limits on v = record {
      pops = suc v.pops;
      needed = ap (all_over c.window (suc v.pops)) e ∙ again;
      bounded = omega (arith, v.bounded);
      evicted =
          subst (λ l. Evicted split c od.1 od.0 (take (suc v.pops) l) (drop (suc v.pops) l)) (sym e)
            (go v.evicted);
      ends = elim v.ends [
        | inl a ↦ inl a
        | inr (inl a) ↦ inr (inl a)
        | inr (inr (inl a)) ↦ inr (inr (inl a))
        | inr (inr (inr a)) ↦ inr (inr (inr (ap suc a.0, a.1)))
      ];
    }
      where
        longer_than_one :
            (l : List ExplicitHistoryRound)
            → ltb 1 (suc (length l)) ≡ true
            → not (is_empty l) ≡ true
        longer_than_one [] h = absurd (ground arith)
        longer_than_one (q ∷ l) h = refl

        over : over_at c.window (r ∷ rs) ≡ true
        over = sym (ap (over_at c.window) e) ∙ ground (arith, on)

        more : not (is_empty rs) ≡ true
        more = longer_than_one rs (ap (λ l. ltb 1 (length l)) (sym e) ∙ ground (arith, on))

        again : all_over c.window (suc v.pops) (r ∷ rs) ≡ true
        again =
            rw (over, more)
              (ap (all_over c.window v.pops) (sym left_over)
                ∙ sym (all_over-same b.window c.window v.pops b.window.rounds limits)
                ∙ v.needed)

        longer :
            (l : List ExplicitHistoryRound)
            → b.started ++ (take v.pops b.window.rounds ++ l)
              ≡ c.started ++ (r ∷ take v.pops rs ++ l)
        longer l =
            ap (λ t. t ++ (take v.pops b.window.rounds ++ l)) begun
            ∙ append_assoc c.started (r ∷ []) _
            ∙ ap (λ t. c.started ++ (r ∷ take v.pops t ++ l)) left_over

        go :
            Evicted split b od.1 od.0 (take v.pops b.window.rounds) (drop v.pops b.window.rounds)
            → Evicted split c od.1 od.0 (r ∷ take v.pops rs) (drop v.pops rs)
        go (whole s w) =
            whole
              (s
                ∙ ap (λ t. b.started ++ t) (sym (append-nil _))
                ∙ longer []
                ∙ ap (λ t. c.started ++ t) (append-nil (r ∷ take v.pops rs)))
              (w ∙ ap (drop v.pops) left_over)
        go (cut q m w o n s a) =
            cut q m (sym (ap (drop v.pops) left_over) ∙ w) (sym (limits (q ∷ [])) ∙ o) n
              (s ∙ longer _) a

    list_cases :
        (l : List ExplicitHistoryRound)
        → ltb 1 (length l) ≡ true
        → (r : ExplicitHistoryRound) × (rs : List ExplicitHistoryRound) × (l ≡ r ∷ rs)
    list_cases [] h = absurd (ground arith)
    list_cases (r ∷ rs) h = (r, rs, refl)

    loop_lem :
        (include : Bool) (split left : ℕ) (c : Compactor)
        → Evicts split left c (compact_loop world include split left c)
    unfolding compact_loop
    loop_lem include split zero c = elim (Bool-cases (goes_on world c)) [
      | inl e ↦ rw (e, compact_loop) (still split 0 c (inr (inr (refl, e))))
      | inr e ↦ rw (e, compact_loop) (split_if_single_lem split 0 c _ refl e)
    ]
    loop_lem include split (suc left) c = elim (Bool-cases (goes_on world c)) [
      | inl e ↦
          let (r, rs, l_is) = list_cases c.window.rounds (ground arith) in
          let (goes, left_over, same) = pop_lem r rs c l_is in
          let p = (pop world c).1 in
          let b = (compact_round world include r p).1 in
          let (adds, keeps) = compact_round-Rests world include r p in
          let now = ap (λ w. w.rounds) keeps ∙ left_over in
          let begun = adds ∙ ap (λ s. s ++ r ∷ []) same in
          let limits = λ (l : List ExplicitHistoryRound).
            ap (λ w. over_at w l) keeps ∙ pop-over_at c r rs l l_is in
          elim (Outcome-cases (compact_round world include r p).0) [
            | inl (x, f) ↦
                rw (e, compact_loop, goes, f)
                  (one_more split left r rs c b _ l_is now begun limits e (failed split left x b))
            | inr (u, f) ↦
                rw (e, compact_loop, goes, f)
                  (one_more split left r rs c b _ l_is now begun limits e
                    (loop_lem include split left b))
          ]
      | inr e ↦ rw (e, compact_loop) (split_if_single_lem split (suc left) c _ refl e)
    ]

    -- Where every write of the window's file can be encoded, a call takes at most `max_pops` whole rounds
    -- off, the oldest ones, each while the window is over its limits and has more than one round, and
    -- begins the compaction of each in order and once, whether the world answers or raises; what is left
    -- of the window is in its old order. Only where that is a single round, over the limits, it is taken
    -- off as well, beyond the `max_pops`, and cut into parts, which are begun in order, all of them or
    -- up to one that raises. At the end an error is raised, or the window is within its limits, or
    -- it is empty, or the pops are used up with more than one round over the limits.
    pub compact_if_needed_lem :
        (split max_pops : ℕ) (include : Bool) (c : Compactor)
        → Evicts split max_pops c (compact_if_needed world split include max_pops c)
    unfolding compact_if_needed
    compact_if_needed_lem split max_pops include c = loop_lem include split max_pops c
