-- ===== src/Base/Action.antt =====
-- Methods that change an object and may raise: what was written before the raise stays written.
use mathlib.Core.Path.{◌≡◌, refl}
use mathlib.Core.Logic.{◌⊎◌, inl, inr}
use mathlib.Core.Bool.{Bool, true, false}
use krakey_bot.Base.Tests.{if◌then◌else◌}

pub data Outcome {ℓ} (E A : Type ℓ) : Type ℓ where
  returned : A → Outcome E A
  raised : E → Outcome E A

abbrev pub Action {ℓ} : Type ℓ → Type ℓ → Type ℓ → Type ℓ
Action E S A = S → Outcome E A × S

pub Outcome-cases {ℓ} :
    {E A : Type ℓ} (o : Outcome E A) → ((x : E) × (o ≡ raised x)) ⊎ ((a : A) × (o ≡ returned a))
Outcome-cases (returned a) = inr (a, refl)
Outcome-cases (raised x) = inl (x, refl)

abbrev pub is_raised {ℓ} : {E A : Type ℓ} → Outcome E A → Bool
is_raised (returned a) = false
is_raised (raised x) = true

module _ {ℓ} {E S A : Type ℓ} where
  abbrev pub pure : A → Action E S A
  pure a s = (returned a, s)

  abbrev pub throw : E → Action E S A
  throw x s = (raised x, s)

  abbrev pub gets : (S → A) → Action E S A
  gets f s = (returned (f s), s)

  abbrev pub handle : Outcome E A → (E → Action E S A) → Action E S A
  handle (returned a) h t = (returned a, t)
  handle (raised x) h t = h x t

  -- `try: m except Exception: h`
  abbrev pub attempt : Action E S A → (E → Action E S A) → Action E S A
  attempt m h s = let (o, t) = m s in handle o h t

abbrev pub modify {ℓ} : {E S : Type ℓ} → (S → S) → Action E S (Unit {ℓ})
modify f s = (returned tt, f s)

module _ {ℓ} {E S A B : Type ℓ} where
  -- What comes after an outcome: the continuation, or the same raise.
  abbrev pub follow : Outcome E A → (A → Action E S B) → Action E S B
  follow (returned a) f t = f a t
  follow (raised x) f t = (raised x, t)

  infixl 10 ◌>>=◌ ◌>>◌
  abbrev pub ◌>>=◌ : Action E S A → (A → Action E S B) → Action E S B
  ◌>>=◌ m f s = let (o, t) = m s in follow o f t

  abbrev pub ◌>>◌ : Action E S A → Action E S B → Action E S B
  m >> n = m >>= λ _. n

-- `m` keeps `P`, whether it returns or raises.
pub record Preserves {ℓ} {E S A : Type ℓ} (P : S → Type ℓ) (m : Action E S A) : Type ℓ where
  pub at : (s : S) → P s → P (m s).1

module _ {ℓ} {E S A : Type ℓ} {P : S → Type ℓ} where
  pub Preserves-pure : (a : A) → Preserves P (pure {E = E} a)
  Preserves-pure a = record { at = λ s p. p }

  pub Preserves-throw : (x : E) → Preserves P (throw {A = A} x)
  Preserves-throw x = record { at = λ s p. p }

  -- A test of the state: each branch may use its outcome.
  pub Preserves-test :
      (b : S → Bool) (m n : Action E S A)
      → ((s : S) → b s ≡ true → P s → P (m s).1)
      → ((s : S) → b s ≡ false → P s → P (n s).1)
      → Preserves P (λ s. if b s then m s else n s)
  Preserves-test b m n hm hn = record { at = λ s p. test (b s) s (hm s) (hn s) p }
    where
      test :
          (v : Bool) (s : S)
          → (v ≡ true → P s → P (m s).1)
          → (v ≡ false → P s → P (n s).1)
          → P s
          → P (if v then m s else n s).1
      test true s x y p = x refl p
      test false s x y p = y refl p

  pub Preserves-attempt :
      {m : Action E S A} {h : E → Action E S A}
      → Preserves P m
      → ((x : E) → Preserves P (h x))
      → Preserves P (attempt m h)
  Preserves-attempt {m} {h} hm hh = record { at = λ s p. let (o, t) = m s in go o t (hm.at s p) }
    where
      go : (o : Outcome E A) (t : S) → P t → P (handle o h t).1
      go (returned a) t p = p
      go (raised x) t p = (hh x).at t p

module _ {ℓ} {E S A B : Type ℓ} {P : S → Type ℓ} where
  follow-keeps :
      (o : Outcome E A) (t : S) (f : A → Action E S B)
      → P t
      → ((a : A) → Preserves P (f a))
      → P (follow o f t).1
  follow-keeps (returned a) t f p h = (h a).at t p
  follow-keeps (raised x) t f p h = p

  pub Preserves-bind :
      {m : Action E S A} {f : A → Action E S B}
      → Preserves P m
      → ((a : A) → Preserves P (f a))
      → Preserves P (m >>= f)
  Preserves-bind {m} {f} hm hf = record {
    at = λ s p. let (o, t) = m s in follow-keeps o t f (hm.at s p) hf;
  }
