-- ===== src/Heartbeat/Commands/Parsing.antt =====
-- When `parse_command` raises.
use Prim.Native.String.{String}
use Prim.Native.Char.{Char, code}
use text.Mathlib.TextLemmas.{cons-ne-nil}
use krakey_bot.Base.{
  ◌≡◌, refl, ap, sym, subst, ◌∙◌, Bool, true, false, ◌&&◌, ◌==◌, ==_iff, ==_refl, string_eq,
  if◌then◌else◌, Bool-cases, inl, inr, nat_beq, Bool-clash,
}
use krakey_bot.Base.Action.{is_raised}
use krakey_bot.Base.Strip.{is_space, lstrip, rstrip}
use krakey_bot.Heartbeat.Commands.{word, behind_slash, first_word, parse_command}

cons-filled : (c : Char) (s : String) → (String.◌∷◌ c s == "") ≡ false
cons-filled c s = elim (Bool-cases (String.◌∷◌ c s == "")) [
  | inl e ↦ absurd (cons-ne-nil c s ((==_iff _ _).0 e))
  | inr e ↦ e
]

starts_word :
    (c : Char) (s : String) → is_space c ≡ false → (word (lstrip (String.◌∷◌ c s)) == "") ≡ false
unfolding lstrip word
starts_word c s b =
    ap (λ t. word t == "") (ap (λ v. if v then lstrip s else String.◌∷◌ c s) b)
    ∙ ap (λ v. (if v then "" else String.◌∷◌ c (word s)) == "") b
    ∙ cons-filled c (word s)

-- A text without a word, once stripped on the right, is empty.
wordless : (s : String) → (word (lstrip (rstrip s)) == "") ≡ true → (rstrip s == "") ≡ true
unfolding lstrip rstrip word
wordless String.[] h = ==_refl {K = String} ""
wordless (String.◌∷◌ c s) h = elim (Bool-cases (rstrip s == "")) [
  | inl e ↦ elim (Bool-cases (is_space c)) [
    | inl b ↦ rw (e, b) (==_refl {K = String} "")
    | inr b ↦ Bool-clash (rw (e, b) at h) (starts_word c (rstrip s) b)
  ]
  | inr e ↦ elim (Bool-cases (is_space c)) [
    | inl b ↦ Bool-clash (wordless s (rw (e, b) at h)) e
    | inr b ↦ Bool-clash (rw e at h) (starts_word c (rstrip s) b)
  ]
]

abbrev pub is_lone_slash : String → Bool
is_lone_slash String.[] = false
is_lone_slash (String.◌∷◌ c s) = nat_beq (code c) 47 && s == ""

behind :
    (c : Char) (s : String)
    → is_raised (behind_slash (String.◌∷◌ c (rstrip s))) ≡ is_lone_slash (String.◌∷◌ c (rstrip s))
unfolding lstrip rstrip word first_word behind_slash
behind c s = elim (Bool-cases (nat_beq (code c) 47)) [
  | inl slash ↦ elim (Bool-cases (word (lstrip (rstrip s)) == "")) [
    | inl e ↦ rw (slash, e, wordless s e) refl
    | inr e ↦ elim (Bool-cases (rstrip s == "")) [
      | inl f ↦
          Bool-clash
            (subst (λ t. (word (lstrip t) == "") ≡ true) (sym ((==_iff (rstrip s) "").0 f))
              (==_refl {K = String} ""))
            e
      | inr f ↦ rw (slash, e, f) refl
    ]
  ]
  | inr other ↦ rw other refl
]

stripped : (u : String) → is_raised (behind_slash (rstrip u)) ≡ is_lone_slash (rstrip u)
unfolding rstrip behind_slash
stripped String.[] = refl
stripped (String.◌∷◌ c s) = elim (Bool-cases (rstrip s == "" && is_space c)) [
  | inl e ↦ rw e refl
  | inr e ↦ rw e (behind c s)
]

-- `parse_command` returns for every content but a slash with nothing around it than spaces, for
-- which it raises.
pub parse_command-raises :
    (content : String) → is_raised (parse_command content) ≡ is_lone_slash (rstrip (lstrip content))
unfolding parse_command behind_slash
parse_command-raises content = stripped (lstrip content)
