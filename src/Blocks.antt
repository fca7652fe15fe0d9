-- ===== src/Blocks.antt =====
-- The blocks <tool_call>…</tool_call> of a text, as the pattern of
-- engines/decision/_internal/action_executor.py (in any case) and the one of `_raw_requests_builtin_sleep`
-- in engines/heartbeat/orchestrator.py (as written) find them: a block ends at the first closing
-- tag behind its opening tag, and an opening tag with no closing tag behind it is no match.
pub mod Printed
use Prim.Native.Char.{Char, code}
use krakey_bot.Base.{
  ℕ, zero, suc, ◌+◌, String, Bool, true, false, ◌&&◌, List, [], ◌∷◌, Option, none, some,
  if◌then◌else◌, leb, nat_beq,
}

abbrev pub exact : Char → Char → Bool
exact p c = nat_beq (code p) (code c)

-- re.IGNORECASE on the letters of the tags, none of which has a second partner beyond ASCII.
abbrev fold_case : ℕ → ℕ
fold_case n = if leb 65 n && leb n 90 then n + 32 else n

abbrev pub any_case : Char → Char → Bool
any_case p c = nat_beq (fold_case (code p)) (fold_case (code c))

abbrev pub starts : (Char → Char → Bool) → String → String → Bool
starts same String.[] s = true
starts same (String.◌∷◌ p ps) String.[] = false
starts same (String.◌∷◌ p ps) (String.◌∷◌ c s) = same p c && starts same ps s

-- `text` is what stands in front of the next closing tag, if there is one; `blocks` are the blocks
-- from there on.
pub record Scan : Type 0 where
  pub text : Option String
  pub blocks : List String

abbrev pub opened : Scan → List String
opened r = elim r.text [ none ↦ [] | some t ↦ t ∷ r.blocks ]

abbrev longer : Char → Option String → Option String
longer c none = none
longer c (some t) = some (String.◌∷◌ c t)

-- `skip` characters belong to the tag that was just met.
unfoldable pub scan : (Char → Char → Bool) → (skip : ℕ) → (inside : Bool) → String → Scan
scan same skip inside String.[] = record { text = none; blocks = [] }
scan same (suc skip) inside (String.◌∷◌ c s) = scan same skip inside s
scan same zero false (String.◌∷◌ c s) =
    let block = scan same 10 true s in
    let rest = scan same zero false s in
    if starts same "<tool_call>" (String.◌∷◌ c s)
    then record { text = none; blocks = opened block }
    else rest
scan same zero true (String.◌∷◌ c s) =
    let after = scan same 11 false s in
    let rest = scan same zero true s in
    if starts same "</tool_call>" (String.◌∷◌ c s)
    then record { text = some ""; blocks = after.blocks }
    else record { text = longer c rest.text; blocks = rest.blocks }

unfoldable pub blocks : (Char → Char → Bool) → String → List String
unfolding scan
blocks same s = (scan same zero false s).blocks
