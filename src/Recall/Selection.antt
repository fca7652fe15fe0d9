-- ===== src/Recall/Selection.antt =====
-- What a session selects, and which stimuli that covers.
use krakey_bot.Base.{
  ℕ, suc, ◌+◌, ◌≤◌, ◌<◌, ◌≡◌, refl, ap, ◌⊎◌, String, true, false, ltb, List, [], ◌∷◌, ◌++◌, map,
  length, take, keep, not, subst, inl, inr, Bool-cases, arith, is_empty,
}
use mathlib.Core.List.{Perm, perm_middle}
use mathlib.Core.List.Perm
use krakey_bot.Base.Dict.{Dict}
use krakey_bot.Base.Action.{returned}
use krakey_bot.Stimuli.{Stimulus}
use krakey_bot.Recall.{
  Entry, Context, World, Settings, Session, RecallResult, zip, cost, admit, classify, meets,
  context_of, ids_of, render, sorted_entries, finalize,
}
use krakey_bot.Recall.Weights.{IsWeighted, rounds}

module _ (world : World) (c : Settings) where
  abbrev pub total : Dict ℕ (List String) → List Entry → ℕ
  total neighbors [] = 0
  total neighbors (e ∷ es) = cost world c neighbors e + total neighbors es

  -- The walk from the second entry on: as long a prefix as the budget has room for.
  admit_rest :
      (n : Dict ℕ (List String)) (so_far : ℕ) (es : List Entry)
      → so_far ≤ c.recall_token_budget
      → (k : ℕ) × (k ≤ length es)
        × (admit world c n false so_far es ≡ take k es)
        × (so_far + total n (take k es) ≤ c.recall_token_budget)
        × ((k ≡ length es) ⊎ (c.recall_token_budget < so_far + total n (take (suc k) es)))
  unfolding admit
  admit_rest n so_far [] h = (0, omega arith, refl, omega arith, inl refl)
  admit_rest n so_far (e ∷ es) h =
      elim (Bool-cases (ltb c.recall_token_budget (so_far + cost world c n e))) [
        | inl over ↦ (0, omega arith, rw over refl, omega arith, inr (ground arith))
        | inr fits ↦
            let (k, le, same, below, more) =
              admit_rest n (so_far + cost world c n e) es (ground arith) in
            (suc k, omega arith, rw fits (ap (λ l. e ∷ l) same), omega arith, ground arith)
      ]

  admit_over :
      (n : Dict ℕ (List String)) (so_far : ℕ) (es : List Entry)
      → c.recall_token_budget < so_far
      → admit world c n false so_far es ≡ []
  unfolding admit
  admit_over n so_far [] h = refl
  admit_over n so_far (e ∷ es) h = ground arith

  -- `k` entries are taken off `es`: within the budget, or a single one, and no more would fit.
  pub record IsCut (n : Dict ℕ (List String)) (es : List Entry) (k : ℕ) : Type 0 where
    pub bounded : k ≤ length es
    pub within : (total n (take k es) ≤ c.recall_token_budget) ⊎ (k ≡ 1)
    pub longest : (k ≡ length es) ⊎ (c.recall_token_budget < total n (take (suc k) es))
    pub some_if_any : is_empty (take k es) ≡ is_empty es

  admit_lem :
      (n : Dict ℕ (List String)) (es : List Entry)
      → (k : ℕ) × (admit world c n true 0 es ≡ take k es) × IsCut n es k
  unfolding admit
  admit_lem n [] = (
    0,
    refl,
    record {
      bounded = omega arith;
      within = inl (omega arith);
      longest = inl refl;
      some_if_any = refl;
    },
  )
  admit_lem n (e ∷ es) = elim (Bool-cases (ltb c.recall_token_budget (cost world c n e))) [
    | inl over ↦ (
      1,
      rw (admit_over n (0 + cost world c n e) es (ground arith)) refl,
      record {
        bounded = omega arith;
        within = inr refl;
        longest = inr (alone es (ground arith));
        some_if_any = refl;
      },
    )
    | inr fits ↦
        let (k, le, same, below, more) = admit_rest n (0 + cost world c n e) es (ground arith) in
        (
          suc k,
          ap (λ l. e ∷ l) same,
          record {
            bounded = omega arith;
            within = inl (omega arith);
            longest = ground arith;
            some_if_any = refl;
          },
        )
  ]
    where
      alone :
          (l : List Entry)
          → c.recall_token_budget < cost world c n e
          → c.recall_token_budget < total n (take 2 (e ∷ l))
      alone [] h = omega arith
      alone (f ∷ l) h = omega arith

classify-perm :
    (selected : List ℕ) (l : List (Stimulus × List ℕ))
    → Perm ((classify selected l).0 ++ (classify selected l).1) (map (λ p. p.0) l)
unfolding classify
classify-perm selected [] = Perm.refl _
classify-perm selected ((x, hits) ∷ l) = elim (Bool-cases (meets hits selected)) [
  | inl e ↦ rw e (Perm.cons x (classify-perm selected l))
  | inr e ↦ rw e (Perm.trans (perm_middle _ _) (Perm.cons x (classify-perm selected l)))
]

zip-first :
    (xs : List Stimulus) (ys : List (List ℕ))
    → length xs ≡ length ys
    → map (λ p. p.0) (zip xs ys) ≡ xs
zip-first [] [] h = refl
zip-first [] (y ∷ ys) h = absurd (omega arith)
zip-first (x ∷ xs) [] h = absurd (omega arith)
zip-first (x ∷ xs) (y ∷ ys) h = ap (λ l. x ∷ l) (zip-first xs ys (omega arith))

classify-keep :
    (selected : List ℕ) (l : List (Stimulus × List ℕ))
    → ((classify selected l).0 ≡ map (λ p. p.0) (keep (λ p. meets p.1 selected) l))
      × ((classify selected l).1 ≡ map (λ p. p.0) (keep (λ p. not (meets p.1 selected)) l))
unfolding classify
classify-keep selected [] = (refl, refl)
classify-keep selected ((x, hits) ∷ l) = elim (Bool-cases (meets hits selected)) [
  | inl e ↦ let (a, b) = classify-keep selected l in (rw e (ap (λ t. x ∷ t) a), rw e b)
  | inr e ↦ let (a, b) = classify-keep selected l in (rw e a, rw e (ap (λ t. x ∷ t) b))
]

-- A result that shows the `k` heaviest nodes of a session, with the stimuli divided by them.
pub record IsResult (s : Session) (n : Dict ℕ (List String)) (k : ℕ) (r : RecallResult)
    : Type 0 where
  pub nodes : r.nodes ≡ map (render n) (take k (sorted_entries s))
  pub covered :
      r.covered_stimuli
      ≡ map (λ p. p.0) (keep (λ p. meets p.1 (ids_of (take k (sorted_entries s)))) (rounds s))
  pub partition : Perm (r.covered_stimuli ++ r.uncovered_stimuli) s.processed_stimuli

module _ (world : World) (c : Settings)
    (answers : (n : ℕ) (ids : List ℕ)
      → (x : Context) × (world.recall_context n ids ≡ returned x)) where
  context_of-returns :
      (ids : List ℕ) (s : Session)
      → (x : Context) × (t : Session) × (context_of world c ids s ≡ (returned x, t))
  context_of-returns [] s = (_, _, refl)
  context_of-returns (i ∷ ids) s =
      let (x, e) = answers s.asked (i ∷ ids) in (x, record s { asked = s.asked + 1 }, rw e refl)

  -- Where the memory engine answers, a session whose stimuli all have their hits finalizes to a
  -- result. It shows a prefix of the nodes by descending weight: as many as the token budget has
  -- room for, and the first one even if it alone exceeds it. The stimuli it covers are those that
  -- hit a shown node; the covered and the uncovered are together the processed ones, each once.
  pub finalize_lem :
      (s : Session)
      → IsWeighted s
      → (r : RecallResult) × (n : Dict ℕ (List String)) × (k : ℕ) × ((finalize world c s).0
          ≡ returned r)
        × IsCut world c n (sorted_entries s) k
        × IsResult s n k r
  unfolding finalize
  finalize_lem s v =
      let (full, t, asks) = context_of-returns (ids_of (sorted_entries s)) s in
      let n = full.neighbor_keywords in
      let (k, same, cut) = admit_lem world c n (sorted_entries s) in
      let top = take k (sorted_entries s) in
      let (selected, u, asks_again) = context_of-returns (ids_of top) t in
      let (covered, uncovered) = classify (ids_of top) (rounds s) in
      (
        record {
          nodes = map (render n) top;
          edges = selected.edges;
          covered_stimuli = covered;
          uncovered_stimuli = uncovered;
        },
        n,
        k,
        rw (finalize, asks, same, asks_again) refl,
        cut,
        record {
          nodes = refl;
          covered = (classify-keep (ids_of top) (rounds s)).0;
          partition =
              subst (λ l. Perm (covered ++ uncovered) l)
                (zip-first s.processed_stimuli s.per_stimulus_ids v.aligned)
                (classify-perm (ids_of top) (rounds s));
        },
      )
