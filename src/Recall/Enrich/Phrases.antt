-- ===== src/Recall/Enrich/Phrases.antt =====
-- Which phrases the enricher hands on, and when it hands on none.
use krakey_bot.Base.{
  String, Bool, true, false, ◌≡◌, refl, sym, ap, ◌∙◌, ◌⊎◌, inl, inr, List, [], ◌∷◌, Option, none,
  some, any, ◌==◌, ==_iff, string_eq, Bool-cases, arith,
}
use krakey_bot.Base.Text.{concat, text_take, text_drop, text_take-append-drop, text_take-append}
use krakey_bot.Base.Action.{Outcome, returned, raised}
use krakey_bot.Recall.Enrich.{strip, is_skipped, kept, lines, phrases_of, read, enrich}

-- A line that is no phrase: it is empty, begins with a fence, or is a lone bracket.
pub data IsJunk (s : String) : Type 0 where
  blank : s ≡ "" → IsJunk s
  fence : (t : String) → s ≡ concat ("```" ∷ t ∷ []) → IsJunk s
  bracket : (s ≡ "{") ⊎ (s ≡ "}") ⊎ (s ≡ "[") ⊎ (s ≡ "]") → IsJunk s

-- The phrases of these lines: the stripped lines, in order, less those that are no phrase.
pub data Picks : List String → List String → Type 0 where
  no_line : Picks [] []
  drops : (l : String) {ls ps : List String} → IsJunk (strip l) → Picks ls ps → Picks (l ∷ ls) ps
  keeps :
      (l : String) {ls ps : List String}
      → ¬ IsJunk (strip l)
      → Picks ls ps
      → Picks (l ∷ ls) (strip l ∷ ps)

abbrev is_bracket : String → Bool
is_bracket s = any (λ b. b == s) ("{" ∷ "}" ∷ "[" ∷ "]" ∷ [])

bracket_of : (s : String) → is_bracket s ≡ true → IsJunk s
bracket_of s h = elim (Bool-cases ("{" == s)) [
  | inl a ↦ bracket (inl (sym ((==_iff "{" s).0 a)))
  | inr a ↦ elim (Bool-cases ("}" == s)) [
    | inl b ↦ bracket (inr (inl (sym ((==_iff "}" s).0 b))))
    | inr b ↦ elim (Bool-cases ("[" == s)) [
      | inl c ↦ bracket (inr (inr (inl (sym ((==_iff "[" s).0 c)))))
      | inr c ↦ bracket (inr (inr (inr (sym ((==_iff "]" s).0 (ground (arith, a, b, c, h)))))))
    ]
  ]
]

is_skipped-IsJunk : (s : String) → is_skipped s ≡ true → IsJunk s
is_skipped-IsJunk s h = elim (Bool-cases (s == "")) [
  | inl a ↦ blank ((==_iff s "").0 a)
  | inr a ↦ elim (Bool-cases (text_take 3 s == "```")) [
    | inl b ↦ fence (text_drop 3 s) (
        sym (text_take-append-drop 3 s)
        ∙ ap (λ t. concat (t ∷ text_drop 3 s ∷ [])) ((==_iff (text_take 3 s) "```").0 b))
    | inr b ↦ bracket_of s (ground (arith, a, b, h))
  ]
]

IsJunk-is_skipped : (s : String) → IsJunk s → is_skipped s ≡ true
IsJunk-is_skipped s (blank e) = rw e refl
IsJunk-is_skipped s (fence t e) =
    let taken : (text_take 3 s == "```") ≡ true =
      (==_iff (text_take 3 s) "```").1 (ap (text_take 3) e ∙ text_take-append "```" t) in
    ground (arith, taken)
IsJunk-is_skipped s (bracket (inl e)) = rw e refl
IsJunk-is_skipped s (bracket (inr (inl e))) = rw e refl
IsJunk-is_skipped s (bracket (inr (inr (inl e)))) = rw e refl
IsJunk-is_skipped s (bracket (inr (inr (inr e)))) = rw e refl

kept-Picks : (ls : List String) → Picks ls (kept ls)
unfolding kept
kept-Picks [] = no_line
kept-Picks (l ∷ ls) = elim (Bool-cases (is_skipped (strip l))) [
  | inl e ↦ rw (e, kept) (drops l (is_skipped-IsJunk (strip l) e) (kept-Picks ls))
  | inr e ↦
      rw (e, kept)
        (keeps l (λ junk. absurd (cc (e, IsJunk-is_skipped (strip l) junk))) (kept-Picks ls))
]

abbrev question : String → String → String
question now text = concat ("CURRENT DATETIME: " ∷ now ∷ "\n\nMESSAGE:\n" ∷ text ∷ [])

-- The answers of the enricher, each with its reason.
pub data Enriched (chat : String → Outcome String (Option String)) (text : Option String)
    (now : String) (r : Option (List String)) : Type 0 where
  no_text : text ≡ none → r ≡ none → Enriched chat text now r
  blank_text : (t : String) → text ≡ some t → strip t ≡ "" → r ≡ none → Enriched chat text now r
  chat_failed :
      (t x : String)
      → text ≡ some t
      → chat (question now t) ≡ raised x
      → r ≡ none
      → Enriched chat text now r
  no_answer :
      (t : String)
      → text ≡ some t
      → chat (question now t) ≡ returned none
      → r ≡ none
      → Enriched chat text now r
  blank_answer :
      (t out : String)
      → text ≡ some t
      → chat (question now t) ≡ returned (some out)
      → strip out ≡ ""
      → r ≡ none
      → Enriched chat text now r
  no_phrase :
      (t out : String)
      → text ≡ some t
      → chat (question now t) ≡ returned (some out)
      → Picks (lines out) []
      → r ≡ none
      → Enriched chat text now r
  phrases :
      (t out p : String) (ps : List String)
      → text ≡ some t
      → (strip t == "") ≡ false
      → chat (question now t) ≡ returned (some out)
      → Picks (lines out) (p ∷ ps)
      → r ≡ some (p ∷ ps)
      → Enriched chat text now r

module _ (chat : String → Outcome String (Option String)) (now t : String) where
  read-Enriched :
      (o : Outcome String (Option String))
      → (strip t == "") ≡ false
      → chat (question now t) ≡ o
      → Enriched chat (some t) now (read o)
  unfolding read
  read-Enriched (raised x) some_text e = chat_failed t x refl e refl
  read-Enriched (returned none) some_text e = no_answer t refl e refl
  read-Enriched (returned (some out)) some_text e = elim (Bool-cases (strip out == "")) [
    | inl b ↦ blank_answer t out refl e ((==_iff (strip out) "").0 b) (rw b refl)
    | inr b ↦ rw b (go (kept (lines out)) (kept-Picks (lines out)))
  ]
    where
      go : (ps : List String) → Picks (lines out) ps → Enriched chat (some t) now (phrases_of ps)
      go [] picks = no_phrase t out refl e picks refl
      go (p ∷ ps) picks = phrases t out p ps refl some_text e picks refl

-- Whatever the model answers or raises, the enricher returns. It hands on the stripped lines of the
-- model's answer, in order, less those that are empty, begin with a fence or are a lone bracket; and
-- nothing, so that the recall falls back to the raw text, exactly where there is no text or a blank
-- one, the call raises, its answer is no text or a blank one, or no line is left of it.
pub enrich-Enriched :
    (chat : String → Outcome String (Option String)) (text : Option String) (now : String)
    → Enriched chat text now (enrich chat text now)
unfolding enrich
enrich-Enriched chat none now = no_text refl refl
enrich-Enriched chat (some t) now = elim (Bool-cases (strip t == "")) [
  | inl e ↦ rw (e, enrich) (blank_text t refl ((==_iff (strip t) "").0 e) refl)
  | inr e ↦ rw (e, enrich) (read-Enriched chat now t (chat (question now t)) e refl)
]
