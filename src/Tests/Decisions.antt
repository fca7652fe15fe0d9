-- ===== src/Tests/Decisions.antt =====
-- Self's answer and the tool calls in it, at concrete inputs.
use Prim.Native.Char.{Char, code}
use krakey_bot.Base.{
  ℕ, ◌-◌, ◌+◌, ◌≤◌, ◌≡◌, refl, String, true, false, ◌&&◌, List, [], ◌∷◌, Option, none, some, map,
  length, if◌then◌else◌, leb, ◌==◌, string_eq,
}
use krakey_bot.Base.Text.{text_length}
use krakey_bot.Base.Dict
use krakey_bot.Base.Action.{Outcome, returned, raised}
use krakey_bot.Json.{Json, str, arr, obj, nil, cons, end, field, Items}
use krakey_bot.Blocks.{any_case, exact, blocks}
use krakey_bot.Blocks.Printed.{printed, printed_round_trip}
use krakey_bot.ToolCalls.{
  LoadError, decode_error, Python, Parsed, parse_tool_calls_with_failures, synth_intent,
  format_arg_value,
}
use krakey_bot.ToolCalls.Accounts.{Ends, filled, parse_tool_calls_with_failures-Ends}
use krakey_bot.ToolCalls.Intents.{synth_intent_bounds}
use krakey_bot.SelfOutput.{ParsedSelfOutput, split_sections, parse_self_output}
use krakey_bot.SelfOutput.Sections.{
  Section, thinking, decision, name, written, latest, split_sections-written,
}

abbrev call : Json
call = obj (field "name" (str "search") end)

-- Reads one call, and finds extra data behind it where a letter follows.
abbrev loads : String → Outcome LoadError Json
loads s =
    if s == "call"
    then returned call
    else if s == "call x"
    then raised (decode_error "Extra data" true 4)
    else raised (decode_error "Expecting value" false 0)

abbrev python : Python
python = record { loads = loads; repr = λ v. "'…'" }

abbrev answer : String
answer =
    "go <tool_call> call </tool_call><TOOL_CALL></TOOL_CALL> <tool_call>call x</tool_call><tool_call>?</tool_call> <tool_call>call"

found : blocks any_case answer ≡ " call " ∷ "" ∷ "call x" ∷ "?" ∷ []
unfolding blocks
found = refl

abbrev two_blocks : List (String × String)
two_blocks = ("first ", "call") ∷ (" then ", " call x ") ∷ []

printed_round_trip_example :
    (blocks any_case (printed two_blocks) ≡ map (λ b. b.1) two_blocks)
    × (blocks exact (printed two_blocks) ≡ map (λ b. b.1) two_blocks)
printed_round_trip_example = printed_round_trip two_blocks refl

parse_tool_calls_with_failures-Ends_example :
    let bs = blocks any_case answer in
    Ends python (length (filled bs)) 0 (length bs) (parse_tool_calls_with_failures python answer)
parse_tool_calls_with_failures-Ends_example = parse_tool_calls_with_failures-Ends python answer

abbrev counts : Outcome String Parsed → Option (ℕ × ℕ)
counts (returned p) = some (length p.calls, length p.failures)
counts (raised x) = none

-- One clean call, one salvaged call and its failure, and one block that is lost.
counted : counts (parse_tool_calls_with_failures python answer) ≡ some (2, 2)
unfolding parse_tool_calls_with_failures blocks
counted = refl

synth_intent_bounds_example :
    let d = field "query" (str "tea") end in
    (text_length (synth_intent python "search" d) ≤ text_length "search" + 122)
    × ((s : String) → text_length (format_arg_value python (str s)) ≤ 40)
    × ((l : Items) → text_length (format_arg_value python (arr l)) ≤ 41)
synth_intent_bounds_example = synth_intent_bounds python "search" (field "query" (str "tea") end)

-- A list whose rendering is too long is cut to 41 characters, one beyond the cap of 40.
cut_list :
    let long = record python { repr = λ v. "'0123456789'" } in
    text_length (
      format_arg_value long
        (arr (cons (str "a") (cons (str "a") (cons (str "a") (cons (str "a") nil))))))
    ≡ 41
unfolding format_arg_value
cut_list = refl

abbrev sections : List Section
sections =
    record { tag = thinking; capital = true; text = " tea " }
    ∷ record { tag = decision; capital = false; text = "drink" }
    ∷ record { tag = thinking; capital = true; text = "cake" }
    ∷ []

split_sections-written_example :
    Dict.get (name thinking) (split_sections (written sections)) ≡ latest thinking sections
split_sections-written_example = split_sections-written thinking sections refl

abbrev pub ascii_digit : Char → Option ℕ
ascii_digit c = if leb 48 (code c) && leb (code c) 57 then some (code c - 48) else none

abbrev idle_of : Outcome String ParsedSelfOutput → Option ℕ
idle_of (raised x) = none
idle_of (returned p) = elim p.idle_seconds [
  | none ↦ none
  | some n ↦ if n.negative then none else some n.magnitude
]

idle_read : idle_of (parse_self_output ascii_digit "[thınKing] x [IDLE] about 60 s") ≡ some 60
unfolding parse_self_output
idle_read = refl
