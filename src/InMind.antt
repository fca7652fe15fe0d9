-- ===== src/InMind.antt =====
-- plugins/in_mind_note: the mental state that Self keeps, its file, and its round in the prompt. What
-- Self passes is not checked to be a text, so a field is any value; null is Python's None.
pub mod Reload
pub mod Latest
use krakey_bot.Base.{
  ℕ, suc, String, Bool, true, false, not, ◌||◌, List, [], ◌∷◌, ◌++◌, Option, none, some,
  if◌then◌else◌,
}
use krakey_bot.Base.Text.{concat, join}
use krakey_bot.Base.Action.{
  Action, Outcome, returned, raised, pure, throw, gets, modify, attempt, ◌>>◌,
}
use krakey_bot.Json.{Json, Fields, null, str, obj, end, field, get_or, truthy}
use krakey_bot.History.{
  File, missing, unreadable, not_utf8, holds, Fate, written, os_error, encode_error,
}

pub record InMindState : Type 0 where
  pub thoughts : Json
  pub mood : Json
  pub focus : Json
  pub updated_at : Json

unfoldable pub is_empty_state : InMindState → Bool
unfolding truthy
is_empty_state s = not (truthy s.thoughts || truthy s.mood || truthy s.focus)

-- json.dumps(state.to_dict())
unfoldable pub to_dict : InMindState → Json
to_dict s = obj (
    field "thoughts" s.thoughts
      (field "mood" s.mood (field "focus" s.focus (field "updated_at" s.updated_at end))))

abbrev pub blank : InMindState
blank = record { thoughts = str ""; mood = str ""; focus = str ""; updated_at = str "" }

pub data Error : Type 0 where
  io_error unicode_error : Error

-- `repr` is Python's `str` of a value that is not a text.
module _ (repr : Json → String) where
  unfoldable pub text_of : Json → String
  text_of (str s) = s
  text_of v = repr v

  -- str(raw.get(key, ""))
  abbrev read_text : String → Fields → Json
  unfolding text_of get_or
  read_text key raw = str (text_of (get_or key (str "") raw))

  unfoldable pub load : File → Outcome Error InMindState
  unfolding text_of get_or
  load not_utf8 = raised unicode_error
  load (holds (obj raw)) = returned (record {
    thoughts = read_text "thoughts" raw;
    mood = read_text "mood" raw;
    focus = read_text "focus" raw;
    updated_at = read_text "updated_at" raw;
  })
  load _ = returned blank

  abbrev line : String → Json → List String
  unfolding truthy text_of
  line label v = if truthy v then concat (label ∷ text_of v ∷ []) ∷ [] else []

  unfoldable pub render_virtual_round : InMindState → Option String
  unfolding is_empty_state truthy text_of
  render_virtual_round s =
      if is_empty_state s
      then none
      else some (
          join "\n" (
            "--- Heartbeat #now (in mind) ---" ∷ line "Thoughts: " s.thoughts
            ++ line "Mood: " s.mood
            ++ line "Focus: " s.focus))

-- `writes` counts the writes that were tried.
pub record InMindModifier : Type 0 where
  pub state : InMindState
  pub file : File
  pub writes : ℕ

-- The arguments of `update`, and the clock.
pub record Update : Type 0 where
  pub thoughts : Json
  pub mood : Json
  pub focus : Json
  pub now : String

-- `if value is not None`
abbrev pub is_given : Json → Bool
is_given null = false
is_given v = true

abbrev pub patched : Json → Json → Json
patched v old = if is_given v then v else old

unfoldable pub patch : Update → InMindState → InMindState
patch u s = record {
  thoughts = patched u.thoughts s.thoughts;
  mood = patched u.mood s.mood;
  focus = patched u.focus s.focus;
  updated_at =
      if is_given u.thoughts || is_given u.mood || is_given u.focus
      then str u.now
      else s.updated_at;
}

-- The write to a temporary file and `os.replace`: a failed one leaves the old file.
unfoldable pub write_with : Fate → Action Error InMindModifier (Unit {0})
unfolding to_dict
write_with written m = pure tt (record m { file = holds (to_dict m.state); writes = suc m.writes })
write_with os_error m = throw io_error (record m { writes = suc m.writes })
write_with encode_error m = throw unicode_error (record m { writes = suc m.writes })

-- `except OSError`
abbrev logged : Error → Action Error InMindModifier (Unit {0})
logged io_error = pure tt
logged unicode_error = throw unicode_error

module _ (fate : ℕ → Fate) where
  unfoldable pub save : Action Error InMindModifier (Unit {0})
  unfolding write_with
  save m = write_with (fate m.writes) m

  unfoldable pub update : Update → Action Error InMindModifier InMindState
  unfolding patch save
  update u =
      modify (λ m. record m { state = patch u m.state })
      >> attempt save logged
      >> gets (λ m. m.state)

  -- The updates of a run, whether they return or raise.
  unfoldable pub updates : List Update → InMindModifier → InMindModifier
  unfolding update
  updates [] m = m
  updates (u ∷ us) m = updates us (update u m).1
