-- ===== src/SelfOutput.antt =====
-- self_agent.py: the sections of Self's answer. The value of a decimal digit of any script is a
-- function that is handed in.
pub mod Sections
use Prim.Native.Char.{Char, code}
use krakey_bot.Base.{
  ℕ, zero, suc, ◌+◌, ◌-◌, ◌*◌, String, Bool, true, false, not, ◌&&◌, ◌||◌, List, [], ◌∷◌, Option,
  none, some, if◌then◌else◌, leb, ltb, nat_beq, ◌==◌, string_eq, is_empty,
}
use krakey_bot.Base.Dict
use krakey_bot.Base.Dict.{Dict}
use krakey_bot.Base.Strip.{strip}
use krakey_bot.Base.Action.{Outcome, returned, raised}
use krakey_bot.Json.{PythonInt}
use krakey_bot.Heartbeat.Commands.{letter}
use krakey_bot.Blocks.{starts}

pub record ParsedSelfOutput : Type 0 where
  pub thinking : String
  pub decision : String
  pub note : String
  pub idle_seconds : Option PythonInt
  pub found_tags : List String
  pub raw : String

-- re.IGNORECASE: beyond ASCII, the dotted capital i, the dotless i, the long s and the Kelvin sign
-- have partners among the letters.
abbrev fold_case : ℕ → ℕ
fold_case n =
    if leb 65 n && leb n 90
    then n + 32
    else if nat_beq n 304 || nat_beq n 305
    then 105
    else if nat_beq n 383
    then 115
    else if nat_beq n 8490
    then 107
    else n

abbrev pub any_case : Char → Char → Bool
any_case p c = nat_beq (fold_case (code p)) (fold_case (code c))

-- str.upper of a character that `_TAG_PATTERN` can match.
abbrev pub upper_char : Char → Char
upper_char c =
    let n = code c in
    if leb 97 n && leb n 122
    then letter (n - 97) "ABCDEFGHIJKLMNOPQRSTUVWXYZ" c
    else if nat_beq n 305
    then "I"
    else if nat_beq n 383
    then "S"
    else c

-- The first `n` characters, in upper case.
abbrev pub upper_front : ℕ → String → String
upper_front zero s = ""
upper_front (suc n) String.[] = ""
upper_front (suc n) (String.◌∷◌ c s) = String.◌∷◌ (upper_char c) (upper_front n s)

-- A tag that stands behind the bracket that opens it: its length, and the closing bracket is met.
abbrev pub tag_length : String → Option ℕ
tag_length s =
    if starts any_case "THINKING]" s
    then some 8
    else if starts any_case "DECISION]" s
    then some 8
    else if starts any_case "NOTE]" s
    then some 4
    else if starts any_case "IDLE]" s
    then some 4
    else none

abbrev pub tag_at : Char → String → Option ℕ
tag_at c s = if nat_beq (code c) 91 then tag_length s else none

-- The text in front of the first tag, and the sections behind it.
pub record Split : Type 0 where
  pub text : String
  pub sections : List (String × String)

-- `skip` characters belong to the tag that was just met.
unfoldable pub split : (skip : ℕ) → String → Split
split skip String.[] = record { text = ""; sections = [] }
split (suc skip) (String.◌∷◌ c s) = split skip s
split zero (String.◌∷◌ c s) = elim (tag_at c s) [
  | none ↦ let r = split zero s in record { text = String.◌∷◌ c r.text; sections = r.sections }
  | some n ↦
      let r = split (suc n) s in
      record { text = ""; sections = (upper_front n s, r.text) ∷ r.sections }
]

abbrev pub stored : List (String × String) → Dict String String → Dict String String
stored [] d = d
stored ((tag, text) ∷ l) d = stored l (Dict.put tag text d)

unfoldable pub split_sections : String → Dict String String
unfolding split
split_sections raw = stored (split zero raw).sections []

module _ (digit : Char → Option ℕ) where
  -- The run of digits that a text starts with: its value behind `acc`, and its length.
  unfoldable pub digits : (acc count : ℕ) → String → ℕ × ℕ
  digits acc count String.[] = (acc, count)
  digits acc count (String.◌∷◌ c s) = elim (digit c) [
    | none ↦ (acc, count)
    | some d ↦ digits (acc * 10 + d) (suc count) s
  ]

  -- int(text), which is an error on more than 4300 digits.
  abbrev to_int : Bool → ℕ × ℕ → Outcome String (Option PythonInt)
  to_int minus (n, count) =
      if ltb 4300 count
      then raised "Exceeds the limit (4300 digits) for integer string conversion"
      else returned (some (record { negative = minus && ltb 0 n; magnitude = n }))

  -- The first number; `minus` tells of a minus sign right in front.
  unfoldable pub parse_int_from : (minus : Bool) → String → Outcome String (Option PythonInt)
  unfolding digits
  parse_int_from minus String.[] = returned none
  parse_int_from minus (String.◌∷◌ c s) = elim (digit c) [
    | none ↦ parse_int_from (nat_beq (code c) 45) s
    | some d ↦ to_int minus (digits d 1 s)
  ]

  unfoldable pub parse_int : String → Outcome String (Option PythonInt)
  unfolding parse_int_from
  parse_int text = parse_int_from false text

  -- sections.get(tag, "")
  abbrev pub section : String → Dict String String → String
  section tag sections = elim (Dict.get tag sections) [ none ↦ "" | some text ↦ text ]

  abbrev pub from_sections :
      String
      → Dict String String
      → Outcome String (Option PythonInt)
      → Outcome String ParsedSelfOutput
  unfolding strip
  from_sections raw sections (raised x) = raised x
  from_sections raw sections (returned idle) = returned (record {
    thinking = strip (section "THINKING" sections);
    decision = strip (section "DECISION" sections);
    note = strip (section "NOTE" sections);
    idle_seconds = idle;
    found_tags = Dict.keys sections;
    raw = raw;
  })

  abbrev unmarked : String → ParsedSelfOutput
  unfolding strip
  unmarked raw = record {
    thinking = strip raw;
    decision = strip raw;
    note = "";
    idle_seconds = none;
    found_tags = [];
    raw = raw;
  }

  unfoldable pub parse_self_output : String → Outcome String ParsedSelfOutput
  unfolding split_sections parse_int from_sections unmarked
  parse_self_output raw =
      let sections = split_sections raw in
      if is_empty sections
      then returned (unmarked raw)
      else from_sections raw sections (parse_int (section "IDLE" sections))
