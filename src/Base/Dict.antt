-- ===== src/Base/Dict.antt =====
-- Python's `dict`: entries in the order in which their keys were first stored.
use krakey_bot.Base.Lists.{elem, Distinct}
use krakey_bot.Base.Tests.{if◌then◌else◌, Eq, ◌==◌, ==_iff, Bool-cases}
use mathlib.Core.Path.{◌≡◌, refl}
use mathlib.Core.Logic.{inl, inr}
use mathlib.Core.Bool.{Bool, true, false, ◌||◌}
use mathlib.Core.Option.{Option, none, some}
use mathlib.Core.List.{List, [], ◌∷◌, map}
use native.Mathlib.Omega.{arith}

abbrev pub Dict {ℓ κ} : Type ℓ → Type κ → Type (ℓ ⊔ κ)
Dict K V = List (K × V)

module _ {ℓ κ} {K : Type ℓ} {V : Type κ} ⦃e : Eq K⦄ where
  -- d.get(k)
  abbrev pub get : K → Dict K V → Option V
  get k [] = none
  get k ((j, v) ∷ d) = if j == k then some v else get k d

  -- k in d
  abbrev pub has : K → Dict K V → Bool
  has k [] = false
  has k ((j, v) ∷ d) = j == k || has k d

  -- d[k] = v: an old key keeps its place
  abbrev pub put : K → V → Dict K V → Dict K V
  put k v [] = (k, v) ∷ []
  put k v ((j, w) ∷ d) = let rest = put k v d in if j == k then (j, v) ∷ d else (j, w) ∷ rest

  -- d.pop(k, None)
  abbrev pub pop : K → Dict K V → Dict K V
  pop k [] = []
  pop k ((j, w) ∷ d) = let rest = pop k d in if j == k then rest else (j, w) ∷ rest

  pub get_of_has : (k : K) (d : Dict K V) → has k d ≡ true → (v : V) × (get k d ≡ some v)
  get_of_has k [] h = cc
  get_of_has k ((j, v) ∷ d) h = elim (Bool-cases (j == k)) [
    | inl e ↦ (v, rw e refl)
    | inr e ↦ let (w, found) = get_of_has k d (ground arith) in (w, rw e found)
  ]

  pub get-put :
      (k j : K) (v : V) (d : Dict K V) → get j (put k v d) ≡ (if k == j then some v else get j d)
  get-put k j v [] = refl
  get-put k j v ((i, w) ∷ d) = ground (arith, get-put k j v d, ==_iff i k, ==_iff i j, ==_iff k j)

  pub get-pop : (k j : K) (d : Dict K V) → get j (pop k d) ≡ (if k == j then none else get j d)
  get-pop k j [] = ground arith
  get-pop k j ((i, w) ∷ d) = ground (arith, get-pop k j d, ==_iff i k, ==_iff i j, ==_iff k j)

  pub has-put : (k j : K) (v : V) (d : Dict K V) → has j (put k v d) ≡ (k == j || has j d)
  has-put k j v [] = refl
  has-put k j v ((i, w) ∷ d) = ground (arith, has-put k j v d, ==_iff i k, ==_iff i j, ==_iff k j)

  pub has-pop : (k j : K) (d : Dict K V) → has j (pop k d) ≡ (if k == j then false else has j d)
  has-pop k j [] = ground arith
  has-pop k j ((i, w) ∷ d) = ground (arith, has-pop k j d, ==_iff i k, ==_iff i j, ==_iff k j)

abbrev pub keys {ℓ κ} : {K : Type ℓ} {V : Type κ} → Dict K V → List K
keys = map (λ p. p.0)

abbrev pub values {ℓ κ} : {K : Type ℓ} {V : Type κ} → Dict K V → List V
values = map (λ p. p.1)

module _ {ℓ κ} {K : Type ℓ} {V : Type κ} ⦃e : Eq K⦄ where
  pub elem-keys : (k : K) (d : Dict K V) → elem k (keys d) ≡ has k d
  elem-keys k [] = refl
  elem-keys k ((j, v) ∷ d) = ground (arith, elem-keys k d)

module _ {κ} {K : Type 0} {V : Type κ} ⦃e : Eq K⦄ where
  pub put-Distinct :
      (k : K) (v : V) (d : Dict K V) → Distinct (keys d) → Distinct (keys (put k v d))
  put-Distinct k v [] h = (refl, tt)
  put-Distinct k v ((j, w) ∷ d) h = elim (Bool-cases (j == k)) [
    | inl s ↦ rw s h
    | inr s ↦ rw s (
      ground (
        arith,
        elem-keys j (put k v d),
        has-put k j v d,
        elem-keys j d,
        h.0,
        ==_iff j k,
        ==_iff k j,
      ),
      put-Distinct k v d h.1,
    )
  ]
