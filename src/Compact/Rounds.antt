-- ===== src/Compact/Rounds.antt =====
-- What the compaction of one round, and of the chunks of one, begins and leaves alone.
use krakey_bot.Base.{
  ℕ, suc, ◌≡◌, ◌⊎◌, refl, ap, ◌∙◌, Bool, true, false, List, [], ◌∷◌, ◌++◌, map, take, Bool-cases,
  inl, inr, ◌==◌, string_eq, String,
}
use mathlib.Core.List.{append_assoc, append-nil}
use krakey_bot.Base.Action.{
  Outcome, is_raised, Outcome-cases, Preserves, Preserves-bind, Preserves-throw,
}
use krakey_bot.Json.{Json, null, bool, int, float, str, arr, obj}
use krakey_bot.Recall.{Node}
use krakey_bot.History.{ExplicitHistoryRound, SlidingWindow}
use krakey_bot.Compact.{
  Error, World, Compactor, apply_extraction, compact_round, compact_chunks, ask, lift, begin,
  existing_nodes, ask_model, compact_begun, synthetic,
}

module _ (world : World) where
  -- What the questions to the world leave alone.
  abbrev pub Rests : List ExplicitHistoryRound → SlidingWindow → Compactor → Type 0
  Rests started window c = (c.started ≡ started) × (c.window ≡ window)

  module _ (started : List ExplicitHistoryRound) (window : SlidingWindow) where
    abbrev Rest : Compactor → Type 0
    Rest = Rests started window

    ask-Rests : {A : Type 0} (f : ℕ → Outcome Error A) → Preserves Rest (ask world f)
    unfolding ask
    ask-Rests f = record { at = λ c p. p }

    lift-Rests : {A : Type 0} (o : Outcome Error A) → Preserves Rest (lift world o)
    unfolding lift
    lift-Rests o = record { at = λ c p. p }

    apply_extraction-Rests : (v : Json) → Preserves Rest (apply_extraction world v)
    unfolding apply_extraction
    apply_extraction-Rests (obj parsed) = search (Preserves-bind, ask-Rests, lift-Rests)
    apply_extraction-Rests null = Preserves-throw _
    apply_extraction-Rests (bool b) = Preserves-throw _
    apply_extraction-Rests (int b n) = Preserves-throw _
    apply_extraction-Rests (float b n) = Preserves-throw _
    apply_extraction-Rests (str b) = Preserves-throw _
    apply_extraction-Rests (arr b) = Preserves-throw _

    existing_nodes-Rests : (q : String) → Preserves Rest (existing_nodes world q)
    unfolding existing_nodes
    existing_nodes-Rests q = elim (Bool-cases (q == "")) [
      | inl e ↦ rw (e, existing_nodes) (record { at = λ c p. p })
      | inr e ↦ rw (e, existing_nodes) (ask-Rests _)
    ]

    ask_model-Rests :
        (i : Bool) (r : ExplicitHistoryRound) (l : List Node)
        → Preserves Rest (ask_model world i r l)
    unfolding ask_model
    ask_model-Rests i r l = search (Preserves-bind, ask-Rests, lift-Rests, apply_extraction-Rests)

    compact_begun-Rests :
        (i : Bool) (r : ExplicitHistoryRound) → Preserves Rest (compact_begun world i r)
    unfolding compact_begun
    compact_begun-Rests i r = search (Preserves-bind, existing_nodes-Rests, ask_model-Rests)

  -- A round whose compaction is begun is noted; else only the questions are counted.
  pub compact_round-Rests :
      (i : Bool) (r : ExplicitHistoryRound) (c : Compactor)
      → Rests (c.started ++ r ∷ []) c.window (compact_round world i r c).1
  unfolding compact_round begin
  compact_round-Rests i r c =
      (compact_begun-Rests (c.started ++ r ∷ []) c.window i r).at _ (refl, refl)

  -- The chunks begun are all of them, unless one raises; then those up to it.
  pub compact_chunks_lem :
      (r : ExplicitHistoryRound) (cs : List String) (c : Compactor)
      → let (o, d) = compact_chunks world r cs c in
        (m : ℕ) × (d.started ≡ c.started ++ map (synthetic world r) (take m cs))
        × (d.window ≡ c.window)
        × ((is_raised o ≡ true) ⊎ (take m cs ≡ cs))
  unfolding compact_chunks
  compact_chunks_lem r [] c = (0, rw append-nil refl, refl, inr refl)
  compact_chunks_lem r (t ∷ cs) c =
      let (adds, same) = compact_round-Rests false (synthetic world r t) c in
      elim (Outcome-cases (compact_round world false (synthetic world r t) c).0) [
        | inl (x, e) ↦ (
          1,
          rw (e, compact_chunks) adds,
          rw (e, compact_chunks) same,
          inl (rw (e, compact_chunks) refl),
        )
        | inr (u, e) ↦
            let (m, begun, keeps, ends) =
              compact_chunks_lem r cs (compact_round world false (synthetic world r t) c).1 in
            (
              suc m,
              rw (e, compact_chunks)
                  (begun
                    ∙ ap (λ l. l ++ map (synthetic world r) (take m cs)) adds
                    ∙ append_assoc c.started _ _),
              rw (e, compact_chunks) (keeps ∙ same),
              rw (e, compact_chunks)
                  (elim ends [ inl a ↦ inl a | inr b ↦ inr (ap (λ l. t ∷ l) b) ]),
            )
      ]
