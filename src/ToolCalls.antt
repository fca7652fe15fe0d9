-- ===== src/ToolCalls.antt =====
-- engines/decision/_internal/action_executor.py: the tool calls in the text of a decision, and
-- engines/decision/_internal/tool_call_parser.py, `translate`. `json.loads` and Python's `repr` are
-- functions that are handed in; the logged warnings are left out.
pub mod Accounts
pub mod Intents
use krakey_bot.Base.{
  ℕ, zero, suc, String, Bool, true, false, not, ◌&&◌, ◌||◌, List, [], ◌∷◌, ◌++◌, Option, none, some,
  if◌then◌else◌, ltb, ◌==◌, string_eq, is_empty,
}
use krakey_bot.Base.Text.{concat, join, text_length, text_take, text_drop}
use krakey_bot.Base.Strip.{strip}
use krakey_bot.Base.Action.{Outcome, returned, raised}
use krakey_bot.Json.{
  Json, Items, Fields, null, bool, int, float, str, arr, obj, nil, cons, end, field, get, get_or,
  truthy,
}
use krakey_bot.Decision.{ToolCall, ParseFailure, DecisionResult}
use krakey_bot.Blocks.{any_case, blocks}

-- What `json.loads` raises: a JSONDecodeError with its `str`, whether that tells of extra data, and its
-- `pos`; or another error.
pub data LoadError : Type 0 where
  decode_error : (text : String) → (extra_data : Bool) → (pos : ℕ) → LoadError
  other_error : String → LoadError

pub record Python : Type 0 where
  pub loads : String → Outcome LoadError Json
  pub repr : Json → String

-- type(v).__name__
abbrev type_name : Json → String
type_name null = "NoneType"
type_name (bool b) = "bool"
type_name (int negative n) = "int"
type_name (float r z) = "float"
type_name (str s) = "str"
type_name (arr l) = "list"
type_name (obj d) = "dict"

-- obj.get("arguments") or {}, with {} in place of what is no object.
abbrev pub arguments_of : Fields → Fields
unfolding get
arguments_of d = elim (get "arguments" d) [ some (obj arguments) ↦ arguments | _ ↦ end ]

-- `name`, if it is a text and not empty.
abbrev pub name_of : Option Json → Option String
name_of (some (str name)) = if name == "" then none else some name
name_of _ = none

-- The calls and the failures of a text, or of one block.
pub record Parsed : Type 0 where
  pub calls : List ToolCall
  pub failures : List ParseFailure

module _ (python : Python) where
  -- s if it has at most `limit` characters, else its first `kept` ones and the tail.
  unfoldable pub cut : (limit kept : ℕ) → (tail s : String) → String
  cut limit kept tail s =
      if ltb limit (text_length s) then concat (text_take kept s ∷ tail ∷ []) else s

  abbrev truncate_repr : String → String
  unfolding cut
  truncate_repr s = cut 40 36 "...'" (python.repr (str s))

  -- _format_arg_value, of a primitive value.
  unfoldable pub format_primitive : Json → Option String
  unfolding truncate_repr
  format_primitive (arr l) = none
  format_primitive (obj d) = none
  format_primitive (str s) = some (truncate_repr s)
  format_primitive v = some (python.repr v)

  -- The members of a list of primitive values, or none where one is not primitive.
  unfoldable pub format_items : Items → Option (List String)
  unfolding format_primitive
  format_items nil = some []
  format_items (cons v l) = elim (format_primitive v) [
    | none ↦ none
    | some s ↦ elim (format_items l) [ none ↦ none | some ss ↦ some (s ∷ ss) ]
  ]

  abbrev pub rendered_list : Option (List String) → String
  unfolding cut
  rendered_list none = "..."
  rendered_list (some parts) = cut 40 37 "...]" (concat ("[" ∷ join ", " parts ∷ "]" ∷ []))

  abbrev rendered : Option String → String
  rendered none = "..."
  rendered (some s) = s

  unfoldable pub format_arg_value : Json → String
  unfolding format_items rendered_list
  format_arg_value (arr l) = rendered_list (format_items l)
  format_arg_value v = rendered (format_primitive v)

  abbrev pub parts_of : Fields → List String
  unfolding format_arg_value
  parts_of end = []
  parts_of (field k v d) = concat (k ∷ "=" ∷ format_arg_value v ∷ []) ∷ parts_of d

  unfoldable pub synth_intent : String → Fields → String
  unfolding parts_of cut
  synth_intent name end = name
  synth_intent name arguments =
      concat (name ∷ "(" ∷ cut 120 117 "..." (join ", " (parts_of arguments)) ∷ ")" ∷ [])

  abbrev failed : String → String → ℕ → Parsed
  failed payload error block_index = record {
    calls = [];
    failures =
        record { payload = payload; error = error; block_index = block_index; salvaged = false }
        ∷ [];
  }

  -- The validation of the shape, after the value `v` was read; `salvage` is the salvage failure.
  unfoldable pub validate :
      (payload : String) → (block_index : ℕ) → List ParseFailure → Json → Parsed
  unfolding synth_intent get get_or truthy arguments_of
  validate payload block_index salvage (obj d) = elim (name_of (get "name" d)) [
    | none ↦ failed payload "missing or empty `name` field" block_index
    | some name ↦ record {
      calls =
          record {
            tool = name;
            intent = synth_intent name (arguments_of d);
            params = arguments_of d;
            adrenalin = truthy (get_or "adrenalin" (bool false) d);
          }
          ∷ [];
      failures = salvage;
    }
  ]
  validate payload block_index salvage v =
      failed payload
        (concat ("payload is valid JSON but not an object (got " ∷ type_name v ∷ ")" ∷ []))
        block_index

  abbrev pub salvage_failure : String → String → ℕ → ℕ → ParseFailure
  salvage_failure payload text pos block_index = record {
    payload = python.repr (str payload);
    error = concat (
        "trailing data after JSON object — "
        ∷ text
        ∷ ". Trailing bytes: "
        ∷ python.repr (str (text_drop pos payload))
        ∷ ". The call was salvaged this time, but emit ONLY the JSON object inside <tool_call>...</tool_call> with no characters after the closing }."
        ∷ []);
    block_index = block_index;
    salvaged = true;
  }

  abbrev undecoded : String → String → ℕ → Parsed
  undecoded payload text block_index =
      failed payload (concat ("JSON decode error: " ∷ text ∷ [])) block_index

  -- What becomes of a payload with extra data, once its front part is read again.
  unfoldable pub salvaged_from :
      (payload text : String)
      → (pos block_index : ℕ) → Outcome LoadError Json
      → Outcome String Parsed
  unfolding validate
  salvaged_from payload text pos block_index (raised (other_error x)) = raised x
  salvaged_from payload text pos block_index (raised (decode_error t e p)) =
      returned (undecoded payload text block_index)
  salvaged_from payload text pos block_index (returned null) =
      returned (undecoded payload text block_index)
  salvaged_from payload text pos block_index (returned v) =
      returned (validate payload block_index (salvage_failure payload text pos block_index ∷ []) v)

  unfoldable pub parse_loaded :
      (payload : String) → (block_index : ℕ) → Outcome LoadError Json → Outcome String Parsed
  unfolding validate salvaged_from
  parse_loaded payload block_index (returned v) = returned (validate payload block_index [] v)
  parse_loaded payload block_index (raised (other_error x)) = raised x
  parse_loaded payload block_index (raised (decode_error text extra_data pos)) =
      if extra_data && ltb 0 pos
      then salvaged_from payload text pos block_index (python.loads (text_take pos payload))
      else returned (undecoded payload text block_index)

  unfoldable pub parse_one_call : String → (block_index : ℕ) → Outcome String Parsed
  unfolding parse_loaded
  parse_one_call payload block_index = parse_loaded payload block_index (python.loads payload)

  abbrev pub joined : Parsed → Outcome String Parsed → Outcome String Parsed
  joined p (raised x) = raised x
  joined p (returned q) =
      returned (record { calls = p.calls ++ q.calls; failures = p.failures ++ q.failures })

  abbrev pub then_rest : Outcome String Parsed → Outcome String Parsed → Outcome String Parsed
  then_rest (raised x) rest = raised x
  then_rest (returned p) rest = joined p rest

  -- The loop over the blocks, from the block `idx` on.
  unfoldable pub parse_blocks : (idx : ℕ) → List String → Outcome String Parsed
  unfolding parse_one_call strip
  parse_blocks idx [] = returned (record { calls = []; failures = [] })
  parse_blocks idx (block ∷ rest) =
      let more = parse_blocks (suc idx) rest in
      if strip block == "" then more else then_rest (parse_one_call (strip block) idx) more

  unfoldable pub parse_tool_calls_with_failures : String → Outcome String Parsed
  unfolding parse_blocks blocks
  parse_tool_calls_with_failures self_text = parse_blocks 0 (blocks any_case self_text)

  -- ToolCallParserDecisionEngine.translate
  unfoldable pub translate : (decision : String) → Outcome String DecisionResult
  unfolding parse_tool_calls_with_failures
  translate decision = elim (parse_tool_calls_with_failures decision) [
    | raised x ↦ raised x
    | returned p ↦ returned (record {
      tool_calls = p.calls;
      memory_writes = [];
      sleep = false;
      parse_failures = p.failures;
    })
  ]
