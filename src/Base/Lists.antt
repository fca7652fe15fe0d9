-- ===== src/Base/Lists.antt =====
-- Lists measured by native numbers, tests over lists, and predicates of all members.
use Prim.Native.Nat.{ℕ, zero, suc, ◌+◌, ◌-◌, ◌≤◌}
use mathlib.Core.Path.{◌≡◌, refl, ap}
use mathlib.Core.Bool.{Bool, true, false, ◌||◌}
use mathlib.Core.List.{List, [], ◌∷◌, ◌++◌}
use native.Mathlib.Omega.{arith}
use krakey_bot.Base.Tests.{if◌then◌else◌, Eq, ◌==◌, ==_iff, ==_refl}

module _ {ℓ} {A : Type ℓ} where
  abbrev pub length : List A → ℕ
  length [] = 0
  length (x ∷ xs) = suc (length xs)

  abbrev pub take : ℕ → List A → List A
  take zero xs = []
  take (suc n) [] = []
  take (suc n) (x ∷ xs) = x ∷ take n xs

  abbrev pub drop : ℕ → List A → List A
  drop zero xs = xs
  drop (suc n) [] = []
  drop (suc n) (x ∷ xs) = drop n xs

  pub length-append : (xs ys : List A) → length (xs ++ ys) ≡ length xs + length ys
  length-append [] ys = omega arith
  length-append (x ∷ xs) ys = omega (arith, length-append xs ys)

  pub length-drop : (n : ℕ) (xs : List A) → length (drop n xs) ≡ length xs - n
  length-drop zero xs = omega arith
  length-drop (suc n) [] = omega arith
  length-drop (suc n) (x ∷ xs) = omega (arith, length-drop n xs)

  pub take-append-drop : (n : ℕ) (xs : List A) → take n xs ++ drop n xs ≡ xs
  take-append-drop zero xs = refl
  take-append-drop (suc n) [] = refl
  take-append-drop (suc n) (x ∷ xs) = ap (λ l. x ∷ l) (take-append-drop n xs)

  pub take-append_le : (n : ℕ) (xs ys : List A) → n ≤ length xs → take n (xs ++ ys) ≡ take n xs
  take-append_le zero xs ys h = refl
  take-append_le (suc n) [] ys h = elim h [ ]
  take-append_le (suc n) (x ∷ xs) ys h = ap (λ l. x ∷ l) (take-append_le n xs ys (omega arith))

  pub take-all : (xs : List A) → take (length xs) xs ≡ xs
  take-all [] = refl
  take-all (x ∷ xs) = ap (λ l. x ∷ l) (take-all xs)

  pub take-length : (xs ys : List A) → take (length xs) (xs ++ ys) ≡ xs
  take-length [] ys = refl
  take-length (x ∷ xs) ys = ap (λ l. x ∷ l) (take-length xs ys)

  -- `any(p(x) for x in xs)`, `all(...)` and `[x for x in xs if p(x)]`.
  abbrev pub any : (A → Bool) → List A → Bool
  any p [] = false
  any p (x ∷ xs) = p x || any p xs

  abbrev pub keep : (A → Bool) → List A → List A
  keep p [] = []
  keep p (x ∷ xs) = let rest = keep p xs in if p x then x ∷ rest else rest

  pub any-append : (p : A → Bool) (xs ys : List A) → any p (xs ++ ys) ≡ (any p xs || any p ys)
  any-append p [] ys = refl
  any-append p (x ∷ xs) ys = ground (arith, any-append p xs ys)

  pub keep-append : (p : A → Bool) (xs ys : List A) → keep p (xs ++ ys) ≡ keep p xs ++ keep p ys
  keep-append p [] ys = refl
  keep-append p (x ∷ xs) ys = ground (arith, keep-append p xs ys)

  pub length-keep-le : (p : A → Bool) (xs : List A) → length (keep p xs) ≤ length xs
  length-keep-le p [] = omega arith
  length-keep-le p (x ∷ xs) = ground (arith, length-keep-le p xs)

  abbrev pub is_empty : List A → Bool
  is_empty [] = true
  is_empty (x ∷ xs) = false

-- Membership as a test, for Python's `x in xs`.
module _ {ℓ} {A : Type ℓ} ⦃e : Eq A⦄ where
  abbrev pub elem : A → List A → Bool
  elem a [] = false
  elem a (x ∷ xs) = x == a || elem a xs

  -- A Python set that is only tested, added to and discarded from.
  abbrev pub add : A → List A → List A
  add a xs = if elem a xs then xs else a ∷ xs

  abbrev pub discard : A → List A → List A
  discard a [] = []
  discard a (x ∷ xs) = let rest = discard a xs in if x == a then rest else x ∷ rest

  abbrev pub update : List A → List A → List A
  update [] s = s
  update (x ∷ xs) s = update xs (add x s)

  pub elem-append : (a : A) (xs ys : List A) → elem a (xs ++ ys) ≡ (elem a xs || elem a ys)
  elem-append a [] ys = refl
  elem-append a (x ∷ xs) ys = ground (arith, elem-append a xs ys)

  pub elem-add : (a b : A) (s : List A) → elem a (add b s) ≡ (b == a || elem a s)
  elem-add a b s = ground (arith, ==_iff b a)

  pub elem-discard :
      (a b : A) (s : List A) → elem a (discard b s) ≡ (if b == a then false else elem a s)
  elem-discard a b [] = ground arith
  elem-discard a b (x ∷ xs) =
      ground (arith, elem-discard a b xs, ==_iff x b, ==_iff x a, ==_iff b a)

  pub elem-update : (a : A) (xs s : List A) → elem a (update xs s) ≡ (elem a xs || elem a s)
  elem-update a [] s = refl
  elem-update a (x ∷ xs) s = ground (arith, elem-update a xs (add x s), elem-add a x s)

  abbrev pub Distinct : List A → Type 0
  Distinct [] = Unit
  Distinct (a ∷ l) = (elem a l ≡ false) × Distinct l

  pub empty_of_none : (l : List A) → ((a : A) → elem a l ≡ false) → is_empty l ≡ true
  empty_of_none [] h = refl
  empty_of_none (x ∷ xs) h = ground (arith, h x, ==_refl x)

  pub none_of_empty : (l : List A) → is_empty l ≡ true → (a : A) → elem a l ≡ false
  none_of_empty [] h a = refl
  none_of_empty (x ∷ xs) h a = cc

  pub is_empty-ext :
      (xs ys : List A) → ((a : A) → elem a xs ≡ elem a ys) → is_empty xs ≡ is_empty ys
  is_empty-ext [] [] h = refl
  is_empty-ext [] (y ∷ ys) h = ground (arith, h y, ==_refl y)
  is_empty-ext (x ∷ xs) [] h = ground (arith, h x, ==_refl x)
  is_empty-ext (x ∷ xs) (y ∷ ys) h = refl
