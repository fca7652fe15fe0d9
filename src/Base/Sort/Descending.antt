-- ===== src/Base/Sort/Descending.antt =====
-- Python's `sorted` with `reverse=True`: descending keys, and equal keys in the order they had.
use Prim.Native.Nat.{ℕ, ◌≤◌}
use mathlib.Core.Path.{◌≡◌, refl}
use mathlib.Core.List.{List, [], ◌∷◌, Perm}
use mathlib.Core.List.Perm
use native.Mathlib.Omega.{arith}
use krakey_bot.Base.Tests.{ltb, if◌then◌else◌, nat_beq, Bool-cases}
use krakey_bot.Base.Lists.{keep}
use mathlib.Core.Logic.{inl, inr}

module _ {ℓ} {A : Type ℓ} (key : A → ℕ) where
  unfoldable pub insert_down : A → List A → List A
  insert_down a [] = a ∷ []
  insert_down a (x ∷ xs) =
      let rest = insert_down a xs in if ltb (key a) (key x) then x ∷ rest else a ∷ x ∷ xs

  unfoldable pub sort_down : List A → List A
  unfolding insert_down
  sort_down [] = []
  sort_down (x ∷ xs) = insert_down x (sort_down xs)

  insert_down-perm : (a : A) (xs : List A) → Perm (insert_down a xs) (a ∷ xs)
  unfolding insert_down
  insert_down-perm a [] = Perm.refl _
  insert_down-perm a (x ∷ xs) = elim (Bool-cases (ltb (key a) (key x))) [
    | inl e ↦ rw e (Perm.trans (Perm.cons x (insert_down-perm a xs)) (Perm.swap a x xs))
    | inr e ↦ rw e (Perm.refl _)
  ]

  pub sort_down-perm : (xs : List A) → Perm (sort_down xs) xs
  unfolding sort_down
  sort_down-perm [] = Perm.refl _
  sort_down-perm (x ∷ xs) =
      Perm.trans (insert_down-perm x (sort_down xs)) (Perm.cons x (sort_down-perm xs))

  -- Every member has a key of at most `n`.
  abbrev pub AtMost : ℕ → List A → Type 0
  AtMost n [] = Unit
  AtMost n (x ∷ xs) = (key x ≤ n) × AtMost n xs

  abbrev pub IsDescending : List A → Type 0
  IsDescending [] = Unit
  IsDescending (x ∷ xs) = AtMost (key x) xs × IsDescending xs

  AtMost-mono : (m n : ℕ) (xs : List A) → m ≤ n → AtMost m xs → AtMost n xs
  AtMost-mono m n [] h a = tt
  AtMost-mono m n (x ∷ xs) h a = (omega arith, AtMost-mono m n xs h a.1)

  AtMost-insert_down :
      (n : ℕ) (a : A) (xs : List A) → key a ≤ n → AtMost n xs → AtMost n (insert_down a xs)
  unfolding insert_down
  AtMost-insert_down n a [] h l = (h, tt)
  AtMost-insert_down n a (x ∷ xs) h l = ground (arith, AtMost-insert_down n a xs h l.1)

  insert_down-IsDescending :
      (a : A) (xs : List A) → IsDescending xs → IsDescending (insert_down a xs)
  unfolding insert_down
  insert_down-IsDescending a [] s = (tt, tt)
  insert_down-IsDescending a (x ∷ xs) s = ground (
    arith,
    insert_down-IsDescending a xs s.1,
    AtMost-insert_down (key x) a xs,
    AtMost-mono (key x) (key a) xs,
  )

  pub sort_down-IsDescending : (xs : List A) → IsDescending (sort_down xs)
  unfolding sort_down
  sort_down-IsDescending [] = tt
  sort_down-IsDescending (x ∷ xs) =
      insert_down-IsDescending x (sort_down xs) (sort_down-IsDescending xs)

  keep-insert_down :
      (n : ℕ) (a : A) (xs : List A)
      → keep (λ x. nat_beq (key x) n) (insert_down a xs) ≡ keep (λ x. nat_beq (key x) n) (a ∷ xs)
  unfolding insert_down
  keep-insert_down n a [] = refl
  keep-insert_down n a (x ∷ xs) = ground (arith, keep-insert_down n a xs)

  pub keep-sort_down :
      (n : ℕ) (xs : List A)
      → keep (λ x. nat_beq (key x) n) (sort_down xs) ≡ keep (λ x. nat_beq (key x) n) xs
  unfolding sort_down
  keep-sort_down n [] = refl
  keep-sort_down n (x ∷ xs) =
      ground (arith, keep-insert_down n x (sort_down xs), keep-sort_down n xs)
