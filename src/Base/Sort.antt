-- ===== src/Base/Sort.antt =====
-- Python's `sorted`, as a stable insertion sort on a key.
pub mod Descending
use Prim.Native.Nat.{ℕ, ◌≤◌}
use mathlib.Core.Path.{◌≡◌, refl}
use mathlib.Core.List.{List, [], ◌∷◌, Perm}
use mathlib.Core.List.Perm
use native.Mathlib.Omega.{arith}
use krakey_bot.Base.Tests.{ltb, if◌then◌else◌, nat_beq, Bool-cases}
use mathlib.Core.Bool.{Bool}
use krakey_bot.Base.Lists.{keep, any}
use mathlib.Core.Logic.{inl, inr}

module _ {ℓ} {A : Type ℓ} (key : A → ℕ) where
  -- Before the first member with a key that is not smaller: equal keys stay in order.
  pub insert_by : A → List A → List A
  insert_by a [] = a ∷ []
  insert_by a (x ∷ xs) =
      let rest = insert_by a xs in if ltb (key x) (key a) then x ∷ rest else a ∷ x ∷ xs

  unfoldable pub sort_by : List A → List A
  unfolding insert_by
  sort_by [] = []
  sort_by (x ∷ xs) = insert_by x (sort_by xs)

  insert_by-perm : (a : A) (xs : List A) → Perm (insert_by a xs) (a ∷ xs)
  unfolding insert_by
  insert_by-perm a [] = Perm.refl _
  insert_by-perm a (x ∷ xs) = elim (Bool-cases (ltb (key x) (key a))) [
    | inl e ↦ rw e (Perm.trans (Perm.cons x (insert_by-perm a xs)) (Perm.swap a x xs))
    | inr e ↦ rw e (Perm.refl _)
  ]

  pub sort_by-perm : (xs : List A) → Perm (sort_by xs) xs
  unfolding sort_by
  sort_by-perm [] = Perm.refl _
  sort_by-perm (x ∷ xs) = Perm.trans (insert_by-perm x (sort_by xs)) (Perm.cons x (sort_by-perm xs))

  -- Every member has a key of at least `n`.
  abbrev pub AtLeast : ℕ → List A → Type 0
  AtLeast n [] = Unit
  AtLeast n (x ∷ xs) = (n ≤ key x) × AtLeast n xs

  abbrev pub IsSorted : List A → Type 0
  IsSorted [] = Unit
  IsSorted (x ∷ xs) = AtLeast (key x) xs × IsSorted xs

  AtLeast-mono : (m n : ℕ) (xs : List A) → m ≤ n → AtLeast n xs → AtLeast m xs
  AtLeast-mono m n [] h a = tt
  AtLeast-mono m n (x ∷ xs) h a = (omega arith, AtLeast-mono m n xs h a.1)

  AtLeast-insert_by :
      (n : ℕ) (a : A) (xs : List A) → n ≤ key a → AtLeast n xs → AtLeast n (insert_by a xs)
  unfolding insert_by
  AtLeast-insert_by n a [] h l = (h, tt)
  AtLeast-insert_by n a (x ∷ xs) h l = ground (arith, AtLeast-insert_by n a xs h l.1)

  insert_by-IsSorted : (a : A) (xs : List A) → IsSorted xs → IsSorted (insert_by a xs)
  unfolding insert_by
  insert_by-IsSorted a [] s = (tt, tt)
  insert_by-IsSorted a (x ∷ xs) s = ground (
    arith,
    insert_by-IsSorted a xs s.1,
    AtLeast-insert_by (key x) a xs,
    AtLeast-mono (key a) (key x) xs,
  )

  pub sort_by-IsSorted : (xs : List A) → IsSorted (sort_by xs)
  unfolding sort_by
  sort_by-IsSorted [] = tt
  sort_by-IsSorted (x ∷ xs) = insert_by-IsSorted x (sort_by xs) (sort_by-IsSorted xs)

  -- Stability: the members with one key come out in the order in which they went in.
  keep-insert_by :
      (n : ℕ) (a : A) (xs : List A)
      → keep (λ x. nat_beq (key x) n) (insert_by a xs) ≡ keep (λ x. nat_beq (key x) n) (a ∷ xs)
  unfolding insert_by
  keep-insert_by n a [] = refl
  keep-insert_by n a (x ∷ xs) = ground (arith, keep-insert_by n a xs)

  pub keep-sort_by :
      (n : ℕ) (xs : List A)
      → keep (λ x. nat_beq (key x) n) (sort_by xs) ≡ keep (λ x. nat_beq (key x) n) xs
  unfolding sort_by
  keep-sort_by n [] = refl
  keep-sort_by n (x ∷ xs) = ground (arith, keep-insert_by n x (sort_by xs), keep-sort_by n xs)

  any-insert_by : (p : A → Bool) (a : A) (xs : List A) → any p (insert_by a xs) ≡ any p (a ∷ xs)
  unfolding insert_by
  any-insert_by p a [] = refl
  any-insert_by p a (x ∷ xs) = ground (arith, any-insert_by p a xs)

  pub any-sort_by : (p : A → Bool) (xs : List A) → any p (sort_by xs) ≡ any p xs
  unfolding sort_by
  any-sort_by p [] = refl
  any-sort_by p (x ∷ xs) = ground (arith, any-insert_by p x (sort_by xs), any-sort_by p xs)
