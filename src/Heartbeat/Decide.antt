-- ===== src/Heartbeat/Decide.antt =====
-- engines/heartbeat/orchestrator.py, `_phase_apply_decision`: from Self's decision to its dispatch.
-- What the decision engine makes of the decision is an outcome that is handed in.
pub mod Sleep
use krakey_bot.Base.{
  ℕ, zero, suc, ◌+◌, ◌-◌, String, Bool, true, false, not, ◌&&◌, ◌||◌, List, [], ◌∷◌, ◌++◌, Option,
  none, some, map, length, keep, any, is_empty, if◌then◌else◌, ltb, ◌==◌, string_eq,
}
use krakey_bot.Base.Text.{decimal, concat, join, text_length, text_take}
use krakey_bot.Base.Dict
use krakey_bot.Base.Dict.{Dict}
use krakey_bot.Base.Action.{Outcome, returned, raised}
use krakey_bot.Stimuli.{Stimulus, Stamp}
use krakey_bot.Stimuli.Buffer.{Buffer, push}
use krakey_bot.Decision.{ToolCall, ParseFailure, DecisionResult}
use krakey_bot.Base.Strip.{lstrip, rstrip}
use krakey_bot.Heartbeat.Commands.{lower}

abbrev preview : String → String
preview payload =
    if ltb 300 (text_length payload) then concat (text_take 300 payload ∷ "…" ∷ []) else payload

abbrev failure_lines : List ParseFailure → List String
failure_lines [] = []
failure_lines (f ∷ fs) =
    concat ("Block " ∷ decimal f.block_index ∷ ": " ∷ preview f.payload ∷ [])
    ∷ concat ("  → " ∷ f.error ∷ [])
    ∷ failure_lines fs

abbrev pub count_salvaged : List ParseFailure → ℕ
count_salvaged failures = length (keep (λ f. f.salvaged) failures)

unfoldable pub format_parse_failure_stimulus : List ParseFailure → ℕ → String
format_parse_failure_stimulus failures total_blocks =
    let n_salv = count_salvaged failures in
    let n_lost = length failures - n_salv in
    let lost = concat (
      decimal n_lost
      ∷ " of "
      ∷ decimal total_blocks
      ∷ " <tool_call> block(s) FAILED to parse — those actions did NOT dispatch."
      ∷ []) in
    let salvaged = concat (
      decimal n_salv
      ∷ " of "
      ∷ decimal total_blocks
      ∷ " <tool_call> block(s) had trailing junk after the JSON; salvaged this time but fix the format next beat."
      ∷ []) in
    let header =
      join "\n" (
        (if ltb 0 n_lost then lost ∷ [] else []) ++ (if ltb 0 n_salv then salvaged ∷ [] else [])) in
    join "\n" (
      header ∷ "" ∷ failure_lines failures
      ++ "" ∷ "Each <tool_call> block must contain ONLY a JSON object — no XML tags after the JSON:"
        ∷ "" ∷ "  <tool_call>{\"name\": \"<tool_name>\", \"arguments\": {...}}</tool_call>" ∷ ""
        ∷ "Do NOT append </arg_value>, </function>, </function_call>, zero-width spaces, or any other characters after the closing }. The trailing-bytes line above shows EXACTLY what was appended — including invisible characters as escape sequences."
        ∷ [])

-- The state that the phase changes: the buffer, and what was handed to the dispatch engine.
pub record State : Type 0 where
  pub buffer : Buffer
  pub dispatched : List DecisionResult

abbrev tell : Stamp → String → String → Bool → State → State
tell stamp source content adrenalin s = record s {
  buffer =
      push
        (record {
          ident = stamp.ident;
          type = "system_event";
          source = source;
          content = content;
          timestamp = stamp.now;
          adrenalin = adrenalin;
        })
        s.buffer;
}

abbrev pub is_sleep : ToolCall → Bool
is_sleep c = c.tool == "sleep"

-- The built-in sleep tool, taken out of the calls.
unfoldable pub intercept_sleep : DecisionResult → DecisionResult
intercept_sleep r =
    if any is_sleep r.tool_calls
    then record r { sleep = true; tool_calls = keep (λ c. not (is_sleep c)) r.tool_calls }
    else r

-- min(thresholds), of the thresholds that start with `t`.
abbrev pub minimum : ℕ → List ℕ → ℕ
minimum t [] = t
minimum t (u ∷ us) = minimum (if ltb u t then u else t) us

unfoldable pub refuses_sleep : ℕ → Dict ℕ String → Bool
refuses_sleep fatigue_pct [] = false
refuses_sleep fatigue_pct ((t, hint) ∷ thresholds) =
    ltb fatigue_pct (minimum t (Dict.keys thresholds))

abbrev least : Dict ℕ String → ℕ
least [] = 0
least ((t, hint) ∷ thresholds) = minimum t (Dict.keys thresholds)

-- The stimuli that the phase makes have stamps of their own.
module _ (stamps : ℕ → Stamp) (fatigue_pct : ℕ) (thresholds : Dict ℕ String) where
  abbrev refuse : DecisionResult → State → DecisionResult × State
  refuse r s = (
    record r { sleep = false },
    tell (stamps 1) "system:sleep"
        (concat (
          "Sleep refused: energy is high (fatigue "
          ∷ decimal fatigue_pct
          ∷ "% is below the minimum sleep threshold "
          ∷ decimal (least thresholds)
          ∷ "%). Stay active."
          ∷ []))
        false s,
  )

  unfoldable pub guard_sleep : DecisionResult → State → DecisionResult × State
  unfolding refuses_sleep
  guard_sleep r s = if r.sleep && refuses_sleep fatigue_pct thresholds then refuse r s else (r, s)

  unfoldable pub report_failures : DecisionResult → State → State
  unfolding format_parse_failure_stimulus
  report_failures r s =
      let total_blocks =
        length r.tool_calls + length r.parse_failures - count_salvaged r.parse_failures in
      if is_empty r.parse_failures
      then s
      else tell (stamps 0) "system:tool_call_parse"
          (format_parse_failure_stimulus r.parse_failures total_blocks) true s

  -- The phase after the translation. A translation that raised has a text for its exception.
  unfoldable pub apply_translation : Outcome String DecisionResult → State → Bool × State
  unfolding intercept_sleep guard_sleep report_failures
  apply_translation (raised err) s = (
    false,
    tell (stamps 0) "system:decision"
        (concat (
          "Your last [DECISION] could not be translated (" ∷ err
          ∷ "). Nothing was dispatched. Try re-stating the intent more explicitly next beat." ∷ []))
        true s,
  )
  apply_translation (returned result) s =
      let (r, t) = guard_sleep (intercept_sleep result) (report_failures result s) in
      (r.sleep, record t { dispatched = t.dispatched ++ r ∷ [] })

  unfoldable pub apply_decision : String → Outcome String DecisionResult → State → Bool × State
  unfolding apply_translation lstrip rstrip lower
  apply_decision decision translated s =
      let text = lower (rstrip (lstrip decision)) in
      if text == "" || text == "no action" then (false, s) else apply_translation translated s
