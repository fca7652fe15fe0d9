-- ===== src/Heartbeat/Budget/Fits.antt =====
-- What the budget costs the window, and what the prompt is in the end.
use krakey_bot.Base.{
  ℕ, zero, suc, ◌≤◌, ◌≡◌, ◌⊎◌, inl, inr, refl, ap, sym, ◌∙◌, String, Bool, true, false, List, [],
  ◌∷◌, ◌++◌, take, drop, leb, is_empty, Bool-cases, Bool-clash, ◌+◌, arith,
}
use mathlib.Core.List.{append_assoc, append-nil}
use krakey_bot.Base.Action.{Outcome, returned, raised, Action, Outcome-cases, ◌>>=◌}
use krakey_bot.History.{ExplicitHistoryRound}
use krakey_bot.Recall.{RecallResult}
use krakey_bot.Compact.{Error, World, Compactor, ask, pop, compact_round}
use krakey_bot.Compact.Rounds.{compact_round-Rests}
use krakey_bot.Compact.Eviction.{Persists, pop_lem}
use krakey_bot.Heartbeat.Budget.{
  Built, built, settled, rebuilt, prune, prune_popped, enforce_loop, enforce_input_budget,
}

module _ (world : World) (build : RecallResult → List ExplicitHistoryRound → String)
    (fresh : ℕ → Outcome Error RecallResult) (include : Bool) (budget : ℕ) where
  -- The prompt is the one of the window as it is, and it fits, or the window is empty, or all
  -- the iterations are used up.
  abbrev pub Final : (all_used : Type 0) → Outcome Error Built → Compactor → Type 0
  Final all_used (raised x) d = Unit
  Final all_used (returned b) d =
      (b.prompt ≡ build b.recall d.window.rounds)
      × ((world.estimate_tokens b.prompt ≤ budget) ⊎ ((d.window.rounds ≡ []) ⊎ all_used))

  pub record Prunes (iterations : ℕ) (c : Compactor) (od : Outcome Error Built × Compactor)
      : Type 0 where
    pub pruned : ℕ
    pub bounded : pruned ≤ iterations
    pub left : od.1.window.rounds ≡ drop pruned c.window.rounds
    pub begun : od.1.started ≡ c.started ++ take pruned c.window.rounds
    pub final : Final (pruned ≡ iterations) od.0 od.1

  stays : (n : ℕ) (o : Outcome Error Built) (c : Compactor) → Final (0 ≡ n) o c → Prunes n c (o, c)
  stays n o c f = record {
    pruned = 0;
    bounded = omega arith;
    left = refl;
    begun = sym (append-nil c.started);
    final = f;
  }

  Final-map :
      {P Q : Type 0} (o : Outcome Error Built) (d : Compactor) → (P → Q) → Final P o d → Final Q o d
  Final-map (raised x) d f h = tt
  Final-map (returned b) d f (p, inl h) = (p, inl h)
  Final-map (returned b) d f (p, inr (inl h)) = (p, inr (inl h))
  Final-map (returned b) d f (p, inr (inr h)) = (p, inr (inr (f h)))

  settled-Final :
      (all_used : Type 0) (b : Built) (c : Compactor)
      → b.prompt ≡ build b.recall c.window.rounds
      → settled world build fresh include budget b c ≡ true
      → Final all_used (returned b) c
  settled-Final all_used b c p h = (
    p,
    elim (Bool-cases (leb (world.estimate_tokens b.prompt) budget)) [
      | inl e ↦ inl (ground (arith, e))
      | inr e ↦ inr (inl (none_left c.window.rounds (ground (arith, h, e))))
    ],
  )
    where
      none_left : (l : List ExplicitHistoryRound) → is_empty l ≡ true → l ≡ []
      none_left [] h = refl
      none_left (r ∷ l) h = cc

  prune_lem :
      (r : ExplicitHistoryRound) (c : Compactor)
      → let (o, d) = prune world build fresh include budget r c in
        (o ≡ returned tt) × (d.started ≡ c.started ++ r ∷ []) × (d.window ≡ c.window)
  unfolding prune
  prune_lem r c =
      let (adds, keeps) = compact_round-Rests world include r c in
      elim (Outcome-cases (compact_round world include r c).0) [
        | inl (x, e) ↦ (rw (e, prune) refl, rw (e, prune) adds, rw (e, prune) keeps)
        | inr (u, e) ↦ (rw (e, prune) refl, rw (e, prune) adds, rw (e, prune) keeps)
      ]

  module _ (persists : Persists world) where
    -- One round off the window, in front of what the rest of the loop does.
    one_more :
        (n : ℕ) (r : ExplicitHistoryRound) (rs : List ExplicitHistoryRound) (c d : Compactor)
        (od : Outcome Error Built × Compactor)
        → c.window.rounds ≡ r ∷ rs
        → d.window.rounds ≡ rs
        → d.started ≡ c.started ++ r ∷ []
        → Prunes n d od
        → Prunes (suc n) c od
    one_more n r rs c d od e now begun v = record {
      pruned = suc v.pruned;
      bounded = omega (arith, v.bounded);
      left = v.left ∙ ap (drop v.pruned) now ∙ ap (drop (suc v.pruned)) (sym e);
      begun =
          v.begun
          ∙ ap (λ s. s ++ take v.pruned d.window.rounds) begun
          ∙ append_assoc c.started (r ∷ []) (take v.pruned d.window.rounds)
          ∙ ap (λ l. c.started ++ (r ∷ take v.pruned l)) now
          ∙ ap (λ l. c.started ++ take (suc v.pruned) l) (sym e);
      final = Final-map od.0 od.1 (λ p. ap suc p) v.final;
    }

    abbrev loop : ℕ → Built → Action Error Compactor Built
    loop = enforce_loop world build fresh include budget

    abbrev Rest : ℕ → Type 0
    Rest n =
        (b : Built) (c : Compactor)
        → b.prompt ≡ build b.recall c.window.rounds
        → Prunes n c (loop n b c)

    rebuilt_lem :
        (n : ℕ) (d : Compactor)
        → Rest n
        → Prunes n d ((rebuilt world build fresh include budget >>= λ b. loop n b) d)
    unfolding rebuilt ask
    rebuilt_lem n d rest = elim (Outcome-cases (fresh d.asked)) [
      | inl (x, e) ↦
          rw (e, rebuilt, ask) (moved n d (raised x, asked) (stays n (raised x) asked tt))
      | inr (r, e) ↦
          rw (e, rebuilt, ask)
            (moved n d _ (rest (built world build fresh include budget r asked) asked refl))
    ]
      where
        asked : Compactor
        asked = record d { asked = d.asked + 1 }

        moved :
            (n : ℕ) (d : Compactor) (od : Outcome Error Built × Compactor)
            → Prunes n (record d { asked = d.asked + 1 }) od
            → Prunes n d od
        moved n d od v = record {
          pruned = v.pruned;
          bounded = v.bounded;
          left = v.left;
          begun = v.begun;
          final = v.final;
        }

    pruned_lem :
        (n : ℕ) (r : ExplicitHistoryRound) (rs : List ExplicitHistoryRound) (c : Compactor)
        → c.window.rounds ≡ r ∷ rs
        → Rest n
        → Prunes (suc n) c (
            (pop world >>= λ o. prune_popped world build fresh include budget o >>= λ b. loop n b)
              c)
    unfolding prune_popped
    pruned_lem n r rs c e rest =
        let (goes, now, same) = pop_lem world persists r rs c e in
        let p = (pop world c).1 in
        let (returns, begun, keeps) = prune_lem r p in
        let d = (prune world build fresh include budget r p).1 in
        rw (goes, returns)
          (one_more n r rs c d _ e (ap (λ w. w.rounds) keeps ∙ now)
            (begun ∙ ap (λ s. s ++ r ∷ []) same) (rebuilt_lem n d rest))

    round_lem :
        (n : ℕ) (b : Built) (c : Compactor) (l : List ExplicitHistoryRound)
        → c.window.rounds ≡ l
        → settled world build fresh include budget b c ≡ false
        → Rest n
        → Prunes (suc n) c (
            (pop world >>= λ o. prune_popped world build fresh include budget o >>= λ b'. loop n b')
              c)
    round_lem n b c [] e h rest = Bool-clash (ground (arith, ap is_empty e)) h
    round_lem n b c (r ∷ rs) e h rest = pruned_lem n r rs c e rest

    loop_lem : (n : ℕ) → Rest n
    unfolding enforce_loop
    loop_lem zero b c p = stays zero (returned b) c (p, inr (inr refl))
    loop_lem (suc n) b c p = elim (Bool-cases (settled world build fresh include budget b c)) [
      | inl e ↦ rw (e, enforce_loop) (stays (suc n) (returned b) c (settled-Final _ b c p e))
      | inr e ↦ rw (e, enforce_loop) (round_lem n b c c.window.rounds refl e (loop_lem n))
    ]

    -- Where every write of the window's file can be encoded, at most 10 rounds leave the window, the oldest
    -- ones, and the compaction of each is begun, in order and once, whether it fails or not. If a prompt
    -- is sent, it is built from the window as it is then, and it fits the budget, or the
    -- window is empty, or 10 rounds have left.
    pub enforce_input_budget_lem :
        (r : RecallResult) (c : Compactor)
        → Prunes 10 c (enforce_input_budget world build fresh include budget r c)
    unfolding enforce_input_budget
    enforce_input_budget_lem r c = loop_lem 10 (built world build fresh include budget r c) c refl
