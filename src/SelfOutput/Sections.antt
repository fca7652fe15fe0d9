-- ===== src/SelfOutput/Sections.antt =====
-- What is read back from an answer in sections.
use krakey_bot.Base.{
  zero, ◌≡◌, refl, ap, ◌∙◌, String, Bool, true, false, not, ◌&&◌, List, [], ◌∷◌, Option, none, some,
  nat_beq, arith, if◌then◌else◌, ◌==◌, string_eq,
}
use Prim.Native.Char.{code}
use krakey_bot.Base.Dict
use krakey_bot.Base.Dict.{Dict, get-put}
use krakey_bot.Blocks.Printed.{glue}
use krakey_bot.SelfOutput.{split, stored, split_sections}

pub data Tag : Type 0 where
  thinking decision note idle : Tag

abbrev pub name : Tag → String
name thinking = "THINKING"
name decision = "DECISION"
name note = "NOTE"
name idle = "IDLE"

abbrev pub lower_name : Tag → String
lower_name thinking = "thinking"
lower_name decision = "decision"
lower_name note = "note"
lower_name idle = "idle"

-- A section: its tag, whether it is written in capitals, and its text.
pub record Section : Type 0 where
  pub tag : Tag
  pub capital : Bool
  pub text : String

abbrev pub header : Tag → Bool → String → String
header t capital s =
    String.◌∷◌ "[" (glue (if capital then name t else lower_name t) (String.◌∷◌ "]" s))

abbrev pub written : List Section → String
written [] = ""
written (s ∷ l) = header s.tag s.capital (glue s.text (written l))

-- No character of the text opens a tag.
abbrev pub is_plain : String → Bool
is_plain String.[] = true
is_plain (String.◌∷◌ c s) = not (nat_beq (code c) 91) && is_plain s

abbrev pub all_plain : List Section → Bool
all_plain [] = true
all_plain (s ∷ l) = is_plain s.text && all_plain l

abbrev pairs : List Section → List (String × String)
pairs [] = []
pairs (s ∷ l) = (name s.tag, s.text) ∷ pairs l

split-header :
    (t : Tag) (capital : Bool) (s : String)
    → split zero (header t capital s)
      ≡ record { text = ""; sections = (name t, (split zero s).text) ∷ (split zero s).sections }
unfolding split
split-header thinking true s = refl
split-header decision true s = refl
split-header note true s = refl
split-header idle true s = refl
split-header thinking false s = refl
split-header decision false s = refl
split-header note false s = refl
split-header idle false s = refl

split_text :
    (x s : String)
    → is_plain x ≡ true
    → split zero (glue x s)
      ≡ record { text = glue x (split zero s).text; sections = (split zero s).sections }
unfolding split
split_text String.[] s h = refl
split_text (String.◌∷◌ c x) s h =
    let e : nat_beq (code c) 91 ≡ false = ground (arith, h) in
    rw (e, split)
      (ap (λ r. record { text = String.◌∷◌ c r.text; sections = r.sections })
        (split_text x s (ground arith)))

glue-nil : (x : String) → glue x "" ≡ x
glue-nil String.[] = refl
glue-nil (String.◌∷◌ c x) = ap (λ s. String.◌∷◌ c s) (glue-nil x)

split-written :
    (l : List Section)
    → all_plain l ≡ true
    → split zero (written l) ≡ record { text = ""; sections = pairs l }
unfolding split
split-written [] h = refl
split-written (s ∷ l) h =
    let rest = split-written l (ground (arith, h)) in
    split-header s.tag s.capital (glue s.text (written l))
    ∙ ap (λ r. record { text = ""; sections = (name s.tag, r.text) ∷ r.sections })
        (split_text s.text (written l) (ground (arith, h))
          ∙ ap (λ r. record { text = glue s.text r.text; sections = r.sections }) rest
          ∙ ap (λ x. record { text = x; sections = pairs l }) (glue-nil s.text))

-- The text of the last section with the tag.
abbrev pub latest : Tag → List Section → Option String
latest t [] = none
latest t (s ∷ l) = elim (latest t l) [
  | some x ↦ some x
  | none ↦ if name s.tag == name t then some s.text else none
]

abbrev or_else : Option String → Option String → Option String
or_else (some x) o = some x
or_else none o = o

get-stored :
    (t : Tag) (l : List Section) (d : Dict String String)
    → Dict.get (name t) (stored (pairs l) d) ≡ or_else (latest t l) (Dict.get (name t) d)
get-stored t [] d = refl
get-stored t (s ∷ l) d =
    get-stored t l (Dict.put (name s.tag) s.text d)
    ∙ ground (arith, get-put (name s.tag) (name t) s.text d)

or_else-none : (o : Option String) → or_else o none ≡ o
or_else-none none = refl
or_else-none (some x) = refl

-- Where an answer was written in sections, in any order and as often as one likes, with the tags in capital or
-- in small letters, and no text of a section has the character that opens a tag, the parser
-- finds for each tag the text of its last section, as it was, and nothing for a tag with no section.
pub split_sections-written :
    (t : Tag) (l : List Section)
    → all_plain l ≡ true
    → Dict.get (name t) (split_sections (written l)) ≡ latest t l
unfolding split_sections
split_sections-written t l h =
    ap (λ r. Dict.get (name t) (stored r.sections [])) (split-written l h)
    ∙ get-stored t l []
    ∙ or_else-none (latest t l)
