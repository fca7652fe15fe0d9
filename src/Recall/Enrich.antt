-- ===== src/Recall/Enrich.antt =====
-- engines/recall/_internal/enrich.py, `enrich`: the phrases that a model derives from a stimulus. The
-- system message is a constant and is left out; the answer is none where it is not a text.
pub mod Phrases
use Prim.Native.Char.{Char, code}
use krakey_bot.Base.{
  ℕ, String, Bool, true, false, ◌||◌, List, [], ◌∷◌, Option, none, some, if◌then◌else◌, ◌==◌,
  string_eq, any, leb, nat_beq, is_empty,
}
use krakey_bot.Base.Text.{concat, text_take}
use krakey_bot.Base.Action.{Outcome, returned, raised}
use krakey_bot.Base.Strip.{lstrip, rstrip}

abbrev pub strip : String → String
unfolding lstrip rstrip
strip s = rstrip (lstrip s)

-- The line breaks of str.splitlines; the empty line within "\r\n" is skipped as all empty ones are.
abbrev is_break : Char → Bool
is_break c =
    let n = code c in
    any (λ m. nat_beq m n) (10 ∷ 11 ∷ 12 ∷ 13 ∷ 28 ∷ 29 ∷ 30 ∷ 133 ∷ 8232 ∷ 8233 ∷ [])

abbrev onto : Char → List String → List String
onto c [] = String.◌∷◌ c "" ∷ []
onto c (l ∷ ls) = String.◌∷◌ c l ∷ ls

unfoldable pub lines : String → List String
lines String.[] = "" ∷ []
lines (String.◌∷◌ c s) = let rest = lines s in if is_break c then "" ∷ rest else onto c rest

abbrev pub is_skipped : String → Bool
is_skipped s = s == "" || text_take 3 s == "```" || any (λ b. b == s) ("{" ∷ "}" ∷ "[" ∷ "]" ∷ [])

unfoldable pub kept : List String → List String
unfolding strip
kept [] = []
kept (l ∷ ls) = let rest = kept ls in if is_skipped (strip l) then rest else strip l ∷ rest

abbrev pub phrases_of : List String → Option (List String)
phrases_of ls = if is_empty ls then none else some ls

unfoldable pub read : Outcome String (Option String) → Option (List String)
unfolding kept lines strip
read (returned (some out)) = if strip out == "" then none else phrases_of (kept (lines out))
read _ = none

-- `now` is the date in ISO form.
unfoldable pub enrich :
    (chat : String → Outcome String (Option String))
    → Option String
    → (now : String) → Option (List String)
unfolding read strip
enrich chat none now = none
enrich chat (some text) now =
    if strip text == ""
    then none
    else read (chat (concat ("CURRENT DATETIME: " ∷ now ∷ "\n\nMESSAGE:\n" ∷ text ∷ [])))
