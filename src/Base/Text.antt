-- ===== src/Base/Text.antt =====
-- Text: the decimal form of a number, and joining.
use Prim.Native.Nat.{ℕ, zero, suc, ◌+◌, ◌-◌, ◌*◌, ◌/◌, ◌%◌, ◌<◌, ◌≤◌}
use Prim.Native.Char.{code}
use Prim.Native.String.{String, ◌++◌}
use mathlib.Core.Path.{◌≡◌, refl, sym, ap, ◌∙◌}
use mathlib.Core.Logic.{inl, inr}
use mathlib.Core.List.{List, [], ◌∷◌}
use native.Mathlib.Omega.{arith}
use text.Mathlib.TextLemmas.{nil-append, cons-append}
use krakey_bot.Base.Tests.{ltb, if◌then◌else◌, Bool-cases}

abbrev digit : ℕ → String
digit zero = "0"
digit (suc zero) = "1"
digit (suc (suc zero)) = "2"
digit (suc (suc (suc zero))) = "3"
digit (suc (suc (suc (suc zero)))) = "4"
digit (suc (suc (suc (suc (suc zero))))) = "5"
digit (suc (suc (suc (suc (suc (suc zero)))))) = "6"
digit (suc (suc (suc (suc (suc (suc (suc zero))))))) = "7"
digit (suc (suc (suc (suc (suc (suc (suc (suc zero)))))))) = "8"
digit _ = "9"

-- `str(n)`, on fuel that `n + 1` is enough of.
decimal_on : ℕ → ℕ → String
decimal_on zero n = ""
decimal_on (suc f) n =
    let front = decimal_on f (n / 10) in if ltb n 10 then digit n else front ++ digit (n % 10)

unfoldable pub decimal : ℕ → String
unfolding decimal_on
decimal n = decimal_on (suc n) n

-- Reads a decimal form back.
value : ℕ → String → ℕ
value acc String.[] = acc
value acc (String.◌∷◌ c s) = value (acc * 10 + (code c - 48)) s

value-digit : (acc d : ℕ) → d < 10 → value acc (digit d) ≡ acc * 10 + d
unfolding value
value-digit acc zero h = omega arith
value-digit acc (suc zero) h = omega arith
value-digit acc (suc (suc zero)) h = omega arith
value-digit acc (suc (suc (suc zero))) h = omega arith
value-digit acc (suc (suc (suc (suc zero)))) h = omega arith
value-digit acc (suc (suc (suc (suc (suc zero))))) h = omega arith
value-digit acc (suc (suc (suc (suc (suc (suc zero)))))) h = omega arith
value-digit acc (suc (suc (suc (suc (suc (suc (suc zero))))))) h = omega arith
value-digit acc (suc (suc (suc (suc (suc (suc (suc (suc zero)))))))) h = omega arith
value-digit acc (suc (suc (suc (suc (suc (suc (suc (suc (suc zero))))))))) h = omega arith
value-digit acc (suc (suc (suc (suc (suc (suc (suc (suc (suc (suc d)))))))))) h =
    absurd (omega arith)

value-append : (acc : ℕ) (s t : String) → value acc (s ++ t) ≡ value (value acc s) t
unfolding value
value-append acc String.[] t = rw nil-append
value-append acc (String.◌∷◌ c s) t = rw cons-append (value-append (acc * 10 + (code c - 48)) s t)

value-decimal_on : (f n : ℕ) → n < f → value 0 (decimal_on f n) ≡ n
unfolding decimal_on
value-decimal_on zero n h = elim h [ ]
value-decimal_on (suc f) n h = elim (Bool-cases (ltb n 10)) [
  | inl e ↦ rw e (value-digit 0 n (ground arith) ∙ omega arith)
  | inr e ↦ rw e (
      value-append 0 (decimal_on f (n / 10)) (digit (n % 10))
      ∙ value-digit _ (n % 10) (omega arith)
      ∙ omega (arith, value-decimal_on f (n / 10) (ground arith)))
]

-- Two numbers with one decimal form are one number.
pub decimal-injective : (m n : ℕ) → decimal m ≡ decimal n → m ≡ n
unfolding decimal
decimal-injective m n e =
    sym (value-decimal_on (suc m) m (omega arith))
    ∙ ap (value 0) e
    ∙ value-decimal_on (suc n) n (omega arith)

-- The parts of an f-string.
abbrev pub concat : List String → String
concat [] = ""
concat (s ∷ []) = s
concat (s ∷ t ∷ r) = s ++ concat (t ∷ r)

-- `sep.join(parts)`
abbrev pub join : String → List String → String
join sep [] = ""
join sep (s ∷ []) = s
join sep (s ∷ t ∷ r) = s ++ (sep ++ join sep (t ∷ r))

-- len(s), s[:n] and s[n:]
abbrev pub text_length : String → ℕ
text_length String.[] = 0
text_length (String.◌∷◌ c s) = suc (text_length s)

abbrev pub text_take : ℕ → String → String
text_take zero s = ""
text_take (suc n) String.[] = ""
text_take (suc n) (String.◌∷◌ c s) = String.◌∷◌ c (text_take n s)

abbrev pub text_drop : ℕ → String → String
text_drop zero s = s
text_drop (suc n) String.[] = ""
text_drop (suc n) (String.◌∷◌ c s) = text_drop n s

pub text_length-append : (s t : String) → text_length (s ++ t) ≡ text_length s + text_length t
text_length-append String.[] t = rw nil-append (omega arith)
text_length-append (String.◌∷◌ c s) t = rw cons-append (omega (arith, text_length-append s t))

pub text_length-take-le : (n : ℕ) (s : String) → text_length (text_take n s) ≤ n
text_length-take-le zero s = omega arith
text_length-take-le (suc n) String.[] = omega arith
text_length-take-le (suc n) (String.◌∷◌ c s) = omega (arith, text_length-take-le n s)

pub text_take-append-drop : (n : ℕ) (s : String) → text_take n s ++ text_drop n s ≡ s
text_take-append-drop zero s = nil-append s
text_take-append-drop (suc n) String.[] = nil-append ""
text_take-append-drop (suc n) (String.◌∷◌ c s) =
    rw cons-append (ap (λ t. String.◌∷◌ c t) (text_take-append-drop n s))

pub text_take-append : (s t : String) → text_take (text_length s) (s ++ t) ≡ s
text_take-append String.[] t = refl
text_take-append (String.◌∷◌ c s) t = rw cons-append (ap (String.◌∷◌ c) (text_take-append s t))
