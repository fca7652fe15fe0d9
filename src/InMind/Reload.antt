-- ===== src/InMind/Reload.antt =====
-- What a restart finds of the mental state.
use krakey_bot.Base.{
  ℕ, suc, ◌+◌, ◌≡◌, refl, ap, sym, ◌∙◌, String, Bool, true, false, not, ◌&&◌, List, [], ◌∷◌, ◌++◌,
  length, Bool-cases, Bool-clash, inl, inr, arith,
}
use krakey_bot.Base.Action.{returned}
use krakey_bot.Json.{Json, str, get, get_or}
use krakey_bot.History.{holds, Fate, written, os_error, encode_error}
use krakey_bot.InMind.{
  InMindState, InMindModifier, Update, to_dict, text_of, load, patch, write_with, save, update,
  updates,
}

-- The state with each value as a text.
abbrev pub as_texts : (Json → String) → InMindState → InMindState
unfolding text_of
as_texts repr s = record {
  thoughts = str (text_of repr s.thoughts);
  mood = str (text_of repr s.mood);
  focus = str (text_of repr s.focus);
  updated_at = str (text_of repr s.updated_at);
}

abbrev pub is_written : Fate → Bool
is_written written = true
is_written _ = false

pub is_written-written : (f : Fate) → is_written f ≡ true → f ≡ written
is_written-written written h = refl
is_written-written os_error h = Bool-clash h refl
is_written-written encode_error h = Bool-clash h refl

module _ (fate : ℕ → Fate) where
  -- From the write `n` on, each of the updates' writes fails.
  abbrev pub all_fail : ℕ → List Update → Bool
  all_fail n [] = true
  all_fail n (u ∷ us) = not (is_written (fate n)) && all_fail (suc n) us

  pub update-written :
      (u : Update) (m : InMindModifier)
      → fate m.writes ≡ written
      → (update fate u m).1 ≡ record {
        state = patch u m.state;
        file = holds (to_dict (patch u m.state));
        writes = suc m.writes;
      }
  unfolding update save write_with
  update-written u m e = rw e refl

  pub update-failed :
      (u : Update) (m : InMindModifier)
      → is_written (fate m.writes) ≡ false
      → (update fate u m).1 ≡ record m { state = patch u m.state; writes = suc m.writes }
  unfolding update save write_with
  update-failed u m h = go (fate m.writes) refl h
    where
      go :
          (f : Fate)
          → fate m.writes ≡ f
          → is_written f ≡ false
          → (update fate u m).1 ≡ record m { state = patch u m.state; writes = suc m.writes }
      go written e h = Bool-clash refl h
      go os_error e h = rw e refl
      go encode_error e h = rw e refl

  update-writes : (u : Update) (m : InMindModifier) → (update fate u m).1.writes ≡ suc m.writes
  update-writes u m = elim (Bool-cases (is_written (fate m.writes))) [
    | inl e ↦ ap (λ n. n.writes) (update-written u m (is_written-written (fate m.writes) e))
    | inr e ↦ ap (λ n. n.writes) (update-failed u m e)
  ]

  updates-append :
      (us vs : List Update) (m : InMindModifier)
      → updates fate (us ++ vs) m ≡ updates fate vs (updates fate us m)
  unfolding updates
  updates-append [] vs m = refl
  updates-append (u ∷ us) vs m = updates-append us vs (update fate u m).1

  updates-writes :
      (us : List Update) (m : InMindModifier) → (updates fate us m).writes ≡ m.writes + length us
  unfolding updates
  updates-writes [] m = omega arith
  updates-writes (u ∷ us) m =
      omega (arith, updates-writes us (update fate u m).1, update-writes u m)

  -- Writes that fail leave the file.
  all_fail-file :
      (us : List Update) (m : InMindModifier)
      → all_fail m.writes us ≡ true
      → (updates fate us m).file ≡ m.file
  unfolding updates
  all_fail-file [] m h = refl
  all_fail-file (u ∷ us) m h =
      let e = update-failed u m (ground (arith, h)) in
      let later : all_fail (suc m.writes) us ≡ true = ground (arith, h) in
      all_fail-file us (update fate u m).1 (ap (λ n. all_fail n us) (ap (λ n. n.writes) e) ∙ later)
      ∙ ap (λ n. n.file) e

  -- The running state is changed by each update, whatever becomes of the writes.
  abbrev pub patched : List Update → InMindState → InMindState
  patched [] s = s
  patched (u ∷ us) s = patched us (patch u s)

  update-state : (u : Update) (m : InMindModifier) → (update fate u m).1.state ≡ patch u m.state
  update-state u m = elim (Bool-cases (is_written (fate m.writes))) [
    | inl e ↦ ap (λ n. n.state) (update-written u m (is_written-written (fate m.writes) e))
    | inr e ↦ ap (λ n. n.state) (update-failed u m e)
  ]

  updates-state :
      (us : List Update) (m : InMindModifier) → (updates fate us m).state ≡ patched us m.state
  unfolding updates
  updates-state [] m = refl
  updates-state (u ∷ us) m =
      updates-state us (update fate u m).1 ∙ ap (patched us) (update-state u m)

  load-to_dict :
      (repr : Json → String) (s : InMindState)
      → load repr (holds (to_dict s)) ≡ returned (as_texts repr s)
  unfolding load to_dict get_or get
  load-to_dict repr s = refl

  -- Where the write of one update succeeds and those of all updates behind it fail, a restart finds
  -- the state as it was after that update, each value as a text, however many updates and failed
  -- writes come before and after; the running state is by then that state, changed by each of the later
  -- updates in turn.
  pub reload_lem :
      (repr : Json → String) (us : List Update) (u : Update) (vs : List Update) (m : InMindModifier)
      → fate (m.writes + length us) ≡ written
      → all_fail (suc (m.writes + length us)) vs ≡ true
      → (load repr (updates fate (us ++ u ∷ vs) m).file
          ≡ returned (as_texts repr (updates fate (us ++ u ∷ []) m).state))
        × ((updates fate (us ++ u ∷ vs) m).state ≡ patched vs (updates fate (us ++ u ∷ []) m).state)
  unfolding updates
  reload_lem repr us u vs m h fails =
      let k = updates fate us m in
      let e = update-written u k (ap fate (updates-writes us m) ∙ h) in
      let rest =
        all_fail-file vs (update fate u k).1
          (ap (λ n. all_fail n vs) (update-writes u k ∙ ap suc (updates-writes us m)) ∙ fails) in
      let after = updates-append us (u ∷ []) m in
      (
        ap (λ n. load repr n.file) (updates-append us (u ∷ vs) m)
            ∙ ap (load repr) (rest ∙ ap (λ n. n.file) e)
            ∙ load-to_dict repr (patch u k.state)
            ∙ ap (λ n. returned (as_texts repr n.state)) (sym (after ∙ e)),
        ap (λ n. n.state) (updates-append us (u ∷ vs) m)
            ∙ updates-state vs (update fate u k).1
            ∙ ap (λ n. patched vs n.state) (sym after),
      )
