-- ===== src/History.antt =====
-- engines/explicit_history/sliding_window.py: the window of recent rounds and its file.
pub mod Stored
pub mod Restart
use krakey_bot.Base.{
  ℕ, suc, ◌+◌, ◌-◌, ◌*◌, String, Bool, true, false, ◌||◌, List, [], ◌∷◌, ◌++◌, Option, none, some,
  length, drop, is_empty, if◌then◌else◌, nat_beq, ltb, ◌==◌, string_eq,
}
use krakey_bot.Base.Action.{Action, Outcome, returned, raised, pure, throw, modify, ◌>>=◌, ◌>>◌}
use krakey_bot.Json.{
  Json, Items, Fields, null, bool, int, float, str, arr, obj, nil, cons, end, field, get, get_or,
  truthy, PythonInt,
}

-- interfaces/engines/explicit_history.py
pub record ExplicitHistoryRound : Type 0 where
  pub heartbeat_id : PythonInt
  pub stimulus_summary : String
  pub decision_text : String
  pub note_text : String
  pub thinking_text : String
  pub recall_summary : String

-- The exceptions of a load and of a write: `int` of an infinite float, a file that is not UTF-8,
-- and a text that UTF-8 cannot encode, none of which the module catches.
pub data Error : Type 0 where
  key_error type_error value_error overflow_error unicode_error : Error

-- What `state_path` holds: an unreadable file is one that the module catches, with no JSON in it too.
pub data File : Type 0 where
  missing unreadable not_utf8 : File
  holds : Json → File

-- What becomes of a write.
pub data Fate : Type 0 where
  written os_error encode_error : Fate

-- Python's `int` of a float and of a text, and `str` of what is not a text.
pub record Conversions : Type 0 where
  pub float_to_int : String → Outcome Error PythonInt
  pub text_to_int : String → Outcome Error PythonInt
  pub repr : Json → String

pub record SlidingWindow : Type 0 where
  pub history_token_budget : ℕ
  pub has_state_path : Bool
  pub compact_threshold : ℕ
  pub max_history_rounds : ℕ
  pub rounds : List ExplicitHistoryRound
  pub file : File
  pub writes : ℕ

unfoldable pub sanitize_positive_int : Option Json → ℕ → ℕ
sanitize_positive_int (some (int false (suc n))) default = suc n
sanitize_positive_int _ default = default

abbrev pub asdict : ExplicitHistoryRound → Json
asdict r = obj (
    field "heartbeat_id" (int r.heartbeat_id.negative r.heartbeat_id.magnitude) (
      field "stimulus_summary" (str r.stimulus_summary) (
        field "decision_text" (str r.decision_text) (
          field "note_text" (str r.note_text) (
            field "thinking_text" (str r.thinking_text)
              (field "recall_summary" (str r.recall_summary) end))))))

abbrev pub asdicts : List ExplicitHistoryRound → Items
asdicts [] = nil
asdicts (r ∷ rs) = cons (asdict r) (asdicts rs)

-- What a write puts into the file.
unfoldable pub stored : List ExplicitHistoryRound → Json
stored rs = obj (field "schema_version" (int false 2) (field "rounds" (arr (asdicts rs)) end))

-- `version == 2`, which the float holds of too.
unfoldable pub is_current : Option Json → Bool
is_current (some (int false n)) = nat_beq n 2
is_current (some (float r z)) = r == "2.0"
is_current _ = false

module _ (conversions : Conversions) where
  unfoldable pub to_int : Json → Outcome Error PythonInt
  to_int (int negative n) = returned (record { negative = negative; magnitude = n })
  to_int (bool b) = returned (record { negative = false; magnitude = if b then 1 else 0 })
  to_int (float r z) = conversions.float_to_int r
  to_int (str s) = conversions.text_to_int s
  to_int _ = raised type_error

  unfoldable pub to_str : Json → String
  to_str (str s) = s
  to_str v = conversions.repr v

  -- str(entry.get(key, ""))
  abbrev pub text_at : String → Fields → String
  unfolding to_str get_or
  text_at key entry = to_str (get_or key (str "") entry)

  abbrev pub load_round : Fields → Outcome Error ExplicitHistoryRound
  load_round entry = elim (get "heartbeat_id" entry) [
    | none ↦ raised key_error
    | some v ↦ elim (to_int v) [
      | raised x ↦ raised x
      | returned id ↦ returned (record {
        heartbeat_id = id;
        stimulus_summary = text_at "stimulus_summary" entry;
        decision_text = text_at "decision_text" entry;
        note_text = text_at "note_text" entry;
        thinking_text = text_at "thinking_text" entry;
        recall_summary = text_at "recall_summary" entry;
      })
    ]
  ]

  -- `except (KeyError, TypeError, ValueError)`: a malformed round is skipped. A file that is not
  -- UTF-8 is a ValueError too, but is not met here.
  abbrev pub is_skipped : Error → Bool
  is_skipped overflow_error = false
  is_skipped _ = true

  unfoldable pub load_rounds : Items → Outcome Error (List ExplicitHistoryRound)
  unfolding get to_int
  load_rounds nil = returned []
  load_rounds (cons (obj entry) l) =
      let rest = load_rounds l in
      elim (load_round entry) [
        | raised x ↦ if is_skipped x then rest else raised x
        | returned r ↦ elim rest [ raised x ↦ raised x | returned rs ↦ returned (r ∷ rs) ]
      ]
  load_rounds (cons v l) = load_rounds l

  -- `data.get("rounds") or []`, which has to be a list.
  abbrev load_list : Option Json → Outcome Error (List ExplicitHistoryRound)
  load_list none = returned []
  load_list (some (arr l)) = load_rounds l
  load_list (some v) = returned []

  unfoldable pub load_from_disk : File → Outcome Error (List ExplicitHistoryRound)
  unfolding is_current load_rounds get
  load_from_disk not_utf8 = raised unicode_error
  load_from_disk (holds (obj data_)) =
      if is_current (get "schema_version" data_)
      then load_list (get "rounds" data_)
      else returned []
  load_from_disk _ = returned []

-- `__init__`: the configuration is `config or {}`, and the file is what the path holds.
abbrev pub blank : ℕ → Bool → Fields → File → SlidingWindow
unfolding sanitize_positive_int
blank budget has_state_path config file = record {
  history_token_budget = budget;
  has_state_path = has_state_path;
  compact_threshold = sanitize_positive_int (get "compact_threshold" config) 2048;
  max_history_rounds = sanitize_positive_int (get "max_history_rounds" config) 20;
  rounds = [];
  file = file;
  writes = 0;
}

module _ (fate : ℕ → Fate) where
  -- The write to a temporary file and `os.replace`: a failed one leaves the old file.
  unfoldable pub persist : Action Error SlidingWindow (Unit {0})
  unfolding stored
  persist w = elim w.has_state_path [
    | false ↦ pure tt w
    | true ↦ elim (fate w.writes) [
      | written ↦ pure tt (record w { file = holds (stored w.rounds); writes = w.writes + 1 })
      | os_error ↦ pure tt (record w { writes = w.writes + 1 })
      | encode_error ↦ throw unicode_error (record w { writes = w.writes + 1 })
    ]
  ]

  unfoldable pub append : ExplicitHistoryRound → Action Error SlidingWindow (Unit {0})
  unfolding persist
  append r w = persist (record w { rounds = w.rounds ++ r ∷ [] })

  unfoldable pub pop_oldest : Action Error SlidingWindow (Option ExplicitHistoryRound)
  unfolding persist
  pop_oldest w = elim w.rounds [
    | [] ↦ pure none w
    | r ∷ rs ↦ (persist >> pure (some r)) (record w { rounds = rs })
  ]

  -- The constructor's fast drop of a window above twice its cap.
  unfoldable pub fast_drop : Action Error SlidingWindow (Unit {0})
  unfolding persist
  fast_drop w =
      let cap2 = 2 * w.max_history_rounds in
      if ltb cap2 (length w.rounds)
      then persist (record w { rounds = drop (length w.rounds - cap2) w.rounds })
      else pure tt w

  unfoldable pub init :
      Conversions → ℕ → Bool → Fields → File → Outcome Error (Unit {0}) × SlidingWindow
  unfolding load_from_disk fast_drop
  init conversions budget has_state_path config file =
      let w : SlidingWindow = blank budget has_state_path config file in
      if has_state_path
      then elim (load_from_disk conversions file) [
        | raised x ↦ throw x w
        | returned rs ↦ fast_drop (record w { rounds = rs })
      ]
      else pure tt w

module _ (estimate_tokens : String → ℕ) where
  unfoldable pub total_tokens : List ExplicitHistoryRound → ℕ
  total_tokens [] = 0
  total_tokens (r ∷ rs) =
      estimate_tokens r.stimulus_summary
      + estimate_tokens r.decision_text
      + estimate_tokens r.note_text
      + estimate_tokens r.thinking_text
      + estimate_tokens r.recall_summary
      + total_tokens rs

  unfoldable pub needs_compact : SlidingWindow → Bool
  unfolding total_tokens
  needs_compact w =
      ltb w.compact_threshold (total_tokens w.rounds) || ltb w.max_history_rounds (length w.rounds)
