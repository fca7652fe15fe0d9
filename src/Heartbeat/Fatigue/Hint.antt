-- ===== src/Heartbeat/Fatigue/Hint.antt =====
-- Which hint a percentage has.
use krakey_bot.Base.{
  ℕ, ◌≤◌, ◌<◌, ◌≡◌, ◌⊎◌, refl, String, Bool, true, false, ◌&&◌, not, List, [], ◌∷◌, Option, none,
  some, ltb, leb, nat_beq, any, inl, inr, Bool-cases, nat_eq, arith,
}
use krakey_bot.Base.Dict
use krakey_bot.Base.Dict.{Dict}
use krakey_bot.Base.Sort.{sort_by, AtLeast, IsSorted, sort_by-IsSorted, any-sort_by}
use krakey_bot.Heartbeat.Fatigue.{climb, matched_threshold}

-- `t` is the greatest of the thresholds that are at most `pct`; `none` stands for no such threshold.
abbrev pub is_highest : ℕ → List ℕ → Option ℕ → Bool
is_highest pct ts none = not (any (λ s. leb s pct) ts)
is_highest pct ts (some t) =
    any (λ s. nat_beq s t) ts && leb t pct && not (any (λ s. leb s pct && ltb t s) ts)

abbrev key : ℕ → ℕ
key t = t

none_below :
    (n pct : ℕ) (ts : List ℕ) → pct < n → AtLeast key n ts → any (λ s. leb s pct) ts ≡ false
none_below n pct [] h a = refl
none_below n pct (t ∷ ts) h a = ground (arith, none_below n pct ts h a.1)

above_none :
    (n pct : ℕ) (ts : List ℕ)
    → any (λ s. leb s pct) ts ≡ false
    → any (λ s. leb s pct && ltb n s) ts ≡ false
above_none n pct [] h = refl
above_none n pct (t ∷ ts) h = ground (arith, above_none n pct ts)

at_least : (n t : ℕ) (ts : List ℕ) → AtLeast key n ts → any (λ s. nat_beq s t) ts ≡ true → n ≤ t
at_least n t [] a h = absurd (ground arith)
at_least n t (s ∷ ts) a h = ground (arith, at_least n t ts a.1)

climb_lem :
    (pct : ℕ) (m : Option ℕ) (ts : List ℕ)
    → IsSorted key ts
    → ((climb pct m ts ≡ m) × (any (λ s. leb s pct) ts ≡ false))
      ⊎ ((t : ℕ) × (climb pct m ts ≡ some t) × (is_highest pct ts (some t) ≡ true))
climb_lem pct m [] v = inl (refl, refl)
climb_lem pct m (t ∷ ts) v = elim (Bool-cases (leb t pct)) [
  | inl e ↦ elim (climb_lem pct (some t) ts v.1) [
    | inl (same, no_more) ↦
        inr (t, rw e same, ground (arith, e, no_more, above_none t pct ts no_more))
    | inr (u, found, high) ↦ inr (u, rw e found, ground (arith, e, high, at_least t u ts v.0))
  ]
  | inr e ↦ inl (rw e refl, ground (arith, e, none_below t pct ts (ground arith) v.0))
]

-- Whatever the order of the thresholds, the loop over them ends with the greatest one that is at most
-- the percentage, or with none where all of them are above it.
pub matched_threshold-is_highest :
    (pct : ℕ) (thresholds : Dict ℕ String)
    → is_highest pct (Dict.keys thresholds) (matched_threshold pct thresholds) ≡ true
unfolding matched_threshold
matched_threshold-is_highest pct thresholds =
    elim (climb_lem pct none (sort_by key (Dict.keys thresholds))
      (sort_by-IsSorted key (Dict.keys thresholds))) [
        | inl (same, no_more) ↦
            rw same
              (ground (arith, no_more, any-sort_by key (λ s. leb s pct) (Dict.keys thresholds)))
        | inr (t, found, high) ↦ rw found (
            ground (
              arith,
              high,
              any-sort_by key (λ s. nat_beq s t) (Dict.keys thresholds),
              any-sort_by key (λ s. leb s pct && ltb t s) (Dict.keys thresholds),
            ))
      ]
