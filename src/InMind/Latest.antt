-- ===== src/InMind/Latest.antt =====
-- What the fields of the mental state hold after a run of updates.
use krakey_bot.Base.{
  ℕ, ◌≡◌, refl, ap, ◌∙◌, Bool, true, false, List, [], ◌∷◌, map, Option, none, some, if◌then◌else◌,
  Bool-cases, Option-cases, inl, inr,
}
use krakey_bot.Json.{Json}
use krakey_bot.History.{Fate}
use krakey_bot.InMind.{InMindModifier, Update, is_given, patched, patch, update, updates}
use krakey_bot.InMind.Reload.{is_written, is_written-written, update-written, update-failed}

-- The last value of a list that is given, read from its end.
abbrev pub last_of : List Json → Option Json
last_of [] = none
last_of (v ∷ l) = elim (last_of l) [ some w ↦ some w | none ↦ if is_given v then some v else none ]

abbrev value_or : Option Json → Json → Json
value_or (some w) old = w
value_or none old = old

abbrev pub last_given : List Json → Json → Json
last_given l old = value_or (last_of l) old

given-value_or :
    (v old : Json) (b : Bool) → (if b then v else old) ≡ value_or (if b then some v else none) old
given-value_or v old true = refl
given-value_or v old false = refl

last_given-cons :
    (v : Json) (l : List Json) (old : Json) → last_given l (patched v old) ≡ last_given (v ∷ l) old
last_given-cons v l old = elim (Option-cases (last_of l)) [
  | inl e ↦ rw e (given-value_or v old (is_given v))
  | inr (w, e) ↦ rw e refl
]

module _ (fate : ℕ → Fate) where
  update-state : (u : Update) (m : InMindModifier) → (update fate u m).1.state ≡ patch u m.state
  update-state u m = elim (Bool-cases (is_written (fate m.writes))) [
    | inl e ↦ ap (λ n. n.state) (update-written fate u m (is_written-written (fate m.writes) e))
    | inr e ↦ ap (λ n. n.state) (update-failed fate u m e)
  ]

  -- After any updates, whatever becomes of their writes, each of the three fields holds the last value
  -- that was given for it, an empty text too, and its first value where none was given.
  pub updates_lem :
      (us : List Update) (m : InMindModifier)
      → let t = (updates fate us m).state in
        (t.thoughts ≡ last_given (map (λ u. u.thoughts) us) m.state.thoughts)
        × (t.mood ≡ last_given (map (λ u. u.mood) us) m.state.mood)
        × (t.focus ≡ last_given (map (λ u. u.focus) us) m.state.focus)
  unfolding updates patch
  updates_lem [] m = (refl, refl, refl)
  updates_lem (u ∷ us) m =
      let e = update-state u m in
      let (thoughts, mood, focus) = updates_lem us (update fate u m).1 in
      (
        thoughts
            ∙ ap (λ s. last_given (map (λ x. x.thoughts) us) s.thoughts) e
            ∙ last_given-cons u.thoughts (map (λ x. x.thoughts) us) m.state.thoughts,
        mood
            ∙ ap (λ s. last_given (map (λ x. x.mood) us) s.mood) e
            ∙ last_given-cons u.mood (map (λ x. x.mood) us) m.state.mood,
        focus
            ∙ ap (λ s. last_given (map (λ x. x.focus) us) s.focus) e
            ∙ last_given-cons u.focus (map (λ x. x.focus) us) m.state.focus,
      )
