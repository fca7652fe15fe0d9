-- ===== src/Compact/Chunks.antt =====
-- The chunks into which a round that is too big is cut.
use Prim.Native.String.{String, ◌++◌}
use krakey_bot.Base.{
  ℕ, zero, suc, ◌-◌, ◌≤◌, ◌≡◌, refl, ap, sym, ◌∙◌, Bool, true, false, List, [], ◌∷◌, ◌==◌, ==_iff,
  ==_refl, string_eq, not, ◌&&◌, leb, Bool-clash, Bool-cases, inl, inr, arith,
}
use krakey_bot.Base.Text.{concat, text_length, text_take, text_take-append-drop, text_drop}
use text.Mathlib.TextLemmas.{append-nil, cons-ne-nil}
use krakey_bot.Compact.{chunks_on, chunks_by_char_budget}

text_length-take : (n : ℕ) (s : String) → text_length (text_take n s) ≤ n
text_length-take zero s = omega arith
text_length-take (suc n) String.[] = omega arith
text_length-take (suc n) (String.◌∷◌ c s) = omega (arith, text_length-take n s)

text_length-drop : (n : ℕ) (s : String) → text_length (text_drop n s) ≡ text_length s - n
text_length-drop zero s = omega arith
text_length-drop (suc n) String.[] = omega arith
text_length-drop (suc n) (String.◌∷◌ c s) = omega (arith, text_length-drop n s)

concat-cons : (s : String) (l : List String) → concat (s ∷ l) ≡ s ++ concat l
concat-cons s [] = sym (append-nil s)
concat-cons s (t ∷ l) = refl

-- Each text has a character, and at most `n` of them.
abbrev pub fit : ℕ → List String → Bool
fit n [] = true
fit n (s ∷ l) = not (s == "") && leb (text_length s) n && fit n l

take-not-empty : (n : ℕ) (s : String) → (s == "") ≡ false → (text_take (suc n) s == "") ≡ false
take-not-empty n String.[] h = Bool-clash (==_refl {K = String} "") h
take-not-empty n (String.◌∷◌ c s) h = elim (Bool-cases (text_take (suc n) (String.◌∷◌ c s) == "")) [
  | inl e ↦ absurd (cons-ne-nil c (text_take n s) ((==_iff _ _).0 e))
  | inr e ↦ e
]

chunks_on_lem :
    (f n : ℕ) (text : String)
    → text_length text ≤ f
    → (concat (chunks_on f (suc n) text) ≡ text) × (fit (suc n) (chunks_on f (suc n) text) ≡ true)
unfolding chunks_on
chunks_on_lem zero n String.[] h = (refl, refl)
chunks_on_lem zero n (String.◌∷◌ c s) h = absurd (omega arith)
chunks_on_lem (suc f) n text h = elim (Bool-cases (text == "")) [
  | inl e ↦ (rw e (sym ((==_iff text "").0 e)), rw e refl)
  | inr e ↦
      let (whole, fits) = chunks_on_lem f n (text_drop (suc n) text) (shorter text h e) in
      (
        rw e (
            concat-cons _ _
            ∙ ap (λ t. text_take (suc n) text ++ t) whole
            ∙ text_take-append-drop (suc n) text),
        rw e (ground (arith, fits, take-not-empty n text e, text_length-take (suc n) text)),
      )
]
  where
    shorter :
        (t : String)
        → text_length t ≤ suc f
        → (t == "") ≡ false
        → text_length (text_drop (suc n) t) ≤ f
    shorter String.[] h e = omega arith
    shorter (String.◌∷◌ c t) h e = omega (arith, text_length-drop (suc n) (String.◌∷◌ c t))

-- For a positive budget the chunks are together the text, in order, and each of them has at least
-- one character and at most as many as the budget allows.
pub chunks_by_char_budget_lem :
    (text : String) (chars : ℕ)
    → 1 ≤ chars
    → (concat (chunks_by_char_budget text chars) ≡ text)
      × (fit chars (chunks_by_char_budget text chars) ≡ true)
unfolding chunks_by_char_budget
chunks_by_char_budget_lem text zero h = absurd (omega arith)
chunks_by_char_budget_lem text (suc n) h = chunks_on_lem (text_length text) n text (omega arith)
