-- ===== src/History/Stored.antt =====
-- The file of a window: what was written is what a load reads, and when the file is up to date.
use krakey_bot.Base.{ℕ, ◌≡◌, ◌⊎◌, refl, List, [], ◌∷◌, inl, inr, Bool-cases}
use krakey_bot.Base.Action.{returned}
use krakey_bot.Json.{get, get_or}
use krakey_bot.History.{
  ExplicitHistoryRound, holds, Fate, written, os_error, Conversions, SlidingWindow, asdicts, stored,
  is_current, to_int, to_str, load_rounds, load_from_disk, persist,
}

module _ (conversions : Conversions) where
  load_rounds-asdicts :
      (rs : List ExplicitHistoryRound) → load_rounds conversions (asdicts rs) ≡ returned rs
  unfolding load_rounds get get_or to_int to_str
  load_rounds-asdicts [] = refl
  load_rounds-asdicts (r ∷ rs) = rw (load_rounds-asdicts rs) refl

  -- A load reads back what a write stored, whatever the rounds, and whatever `int` and `str` do
  -- with the values that no write stores.
  pub load_from_disk-stored :
      (rs : List ExplicitHistoryRound)
      → load_from_disk conversions (holds (stored rs)) ≡ returned rs
  unfolding load_from_disk stored is_current get
  load_from_disk-stored rs = load_rounds-asdicts rs

-- A write that UTF-8 can encode returns, whether it succeeds or not.
pub persist-returns :
    (fate : ℕ → Fate) (w : SlidingWindow)
    → (fate w.writes ≡ written) ⊎ (fate w.writes ≡ os_error)
    → ((persist fate w).0 ≡ returned tt) × ((persist fate w).1.rounds ≡ w.rounds)
unfolding persist
persist-returns fate w h = elim (Bool-cases w.has_state_path) [
  | inl e ↦ elim h [
    | inl f ↦ (rw (e, f, persist) refl, rw (e, f, persist) refl)
    | inr f ↦ (rw (e, f, persist) refl, rw (e, f, persist) refl)
  ]
  | inr e ↦ (rw (e, persist) refl, rw (e, persist) refl)
]
