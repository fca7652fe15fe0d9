-- ===== src/History/Restart.antt =====
-- A restart: what a new window finds in the file that an old one left.
use krakey_bot.Base.{
  ℕ, zero, suc, ◌-◌, ◌*◌, ◌≤◌, ◌≡◌, refl, Bool, true, false, List, [], ◌∷◌, ◌++◌, Option, none,
  some, inl, inr, Bool-cases, length, drop, length-drop, ltb, arith,
}
use krakey_bot.Base.Action.{returned, Outcome-cases}
use krakey_bot.Json.{Json, Fields, null, bool, int, float, str, obj, arr, get}
use krakey_bot.History.{
  ExplicitHistoryRound, File, holds, Fate, written, os_error, encode_error, Conversions,
  SlidingWindow, stored, sanitize_positive_int, load_from_disk, persist, append, fast_drop, blank,
  init,
}
use krakey_bot.History.Stored.{load_from_disk-stored}

-- The newest `n` rounds.
abbrev pub newest : ℕ → List ExplicitHistoryRound → List ExplicitHistoryRound
newest n rs = drop (length rs - n) rs

sanitize-positive : (v : Option Json) (d : ℕ) → 1 ≤ d → 1 ≤ sanitize_positive_int v d
unfolding sanitize_positive_int
sanitize-positive none d h = h
sanitize-positive (some (int false (suc n))) d h = omega arith
sanitize-positive (some (int false zero)) d h = h
sanitize-positive (some (int true n)) d h = h
sanitize-positive (some null) d h = h
sanitize-positive (some (bool b)) d h = h
sanitize-positive (some (float r z)) d h = h
sanitize-positive (some (str s)) d h = h
sanitize-positive (some (arr l)) d h = h
sanitize-positive (some (obj f)) d h = h

module _ (fate : ℕ → Fate) where
  -- A write changes the file and the count of the writes only.
  record IsWrite (w v : SlidingWindow) : Type 0 where
    path : v.has_state_path ≡ w.has_state_path
    threshold : v.compact_threshold ≡ w.compact_threshold
    cap : v.max_history_rounds ≡ w.max_history_rounds
    rounds : v.rounds ≡ w.rounds

  persist-IsWrite : (w : SlidingWindow) → IsWrite w (persist fate w).1
  unfolding persist
  persist-IsWrite w = elim (Bool-cases w.has_state_path) [
    | inl e ↦ go e (fate w.writes) refl
    | inr e ↦ rw (e, persist) (record { path = e; threshold = refl; cap = refl; rounds = refl })
  ]
    where
      go : w.has_state_path ≡ true → (f : Fate) → fate w.writes ≡ f → IsWrite w (persist fate w).1
      go e written h =
          rw (e, h, persist) (record { path = e; threshold = refl; cap = refl; rounds = refl })
      go e os_error h =
          rw (e, h, persist) (record { path = e; threshold = refl; cap = refl; rounds = refl })
      go e encode_error h =
          rw (e, h, persist) (record { path = e; threshold = refl; cap = refl; rounds = refl })

  append-stored :
      (r : ExplicitHistoryRound) (w : SlidingWindow)
      → w.has_state_path ≡ true
      → fate w.writes ≡ written
      → (append fate r w).1.file ≡ holds (stored (w.rounds ++ r ∷ []))
  unfolding append persist
  append-stored r w path good = rw (path, append, persist, good) refl

  abbrev IsDropped : SlidingWindow → SlidingWindow → Type 0
  IsDropped w v = IsWrite (record w { rounds = newest (2 * w.max_history_rounds) w.rounds }) v

  fast_drop-IsDropped : (w : SlidingWindow) → IsDropped w (fast_drop fate w).1
  unfolding fast_drop
  fast_drop-IsDropped w = elim (Bool-cases (ltb (2 * w.max_history_rounds) (length w.rounds))) [
    | inl e ↦ rw e (persist-IsWrite _)
    | inr e ↦
        rw e
          (record { path = refl; threshold = refl; cap = refl; rounds = all_kept (ground arith) })
  ]
    where
      all_kept :
          length w.rounds - 2 * w.max_history_rounds ≡ 0
          → w.rounds ≡ newest (2 * w.max_history_rounds) w.rounds
      all_kept h = rw h refl

  module _ (conversions : Conversions) (budget : ℕ) (config : Fields) where
    -- Whatever the file holds and whatever the configuration says, a new window has at most twice as
    -- many rounds as its cap allows, and its two limits are positive.
    pub init-bounds :
        (has_state_path : Bool) (file : File)
        → let w = (init fate conversions budget has_state_path config file).1 in
          (length w.rounds ≤ 2 * w.max_history_rounds)
          × (1 ≤ w.max_history_rounds)
          × (1 ≤ w.compact_threshold)
    unfolding init blank
    init-bounds false file = (
      omega arith,
      sanitize-positive (get "max_history_rounds" config) 20 (omega arith),
      sanitize-positive (get "compact_threshold" config) 2048 (omega arith),
    )
    init-bounds true file = elim (Outcome-cases (load_from_disk conversions file)) [
      | inl (x, e) ↦
          rw (e, init)
            (
              omega arith,
              sanitize-positive (get "max_history_rounds" config) 20 (omega arith),
              sanitize-positive (get "compact_threshold" config) 2048 (omega arith),
            )
      | inr (rs, e) ↦
          let b : SlidingWindow = blank budget true config file in
          let d = fast_drop-IsDropped (record b { rounds = rs }) in
          rw (e, init)
            (rw (d.rounds, d.cap, d.threshold)
              (
                omega (arith, length-drop (length rs - 2 * b.max_history_rounds) rs),
                sanitize-positive (get "max_history_rounds" config) 20 (omega arith),
                sanitize-positive (get "compact_threshold" config) 2048 (omega arith),
              ))
    ]

    init-loaded :
        (file : File) (rs : List ExplicitHistoryRound)
        → load_from_disk conversions file ≡ returned rs
        → let u = (init fate conversions budget true config file).1 in
          u.rounds ≡ newest (2 * u.max_history_rounds) rs
    unfolding init blank
    init-loaded file rs e =
        let b : SlidingWindow = blank budget true config file in
        let d = fast_drop-IsDropped (record b { rounds = rs }) in
        rw (e, init) (rw (d.rounds, d.cap) refl)

    -- Whatever happened to the window and to its file before, once the write of an `append` succeeds a
    -- new window on that file has the old one's rounds, the newest ones where they are more than twice
    -- its cap.
    pub restart_lem :
        (r : ExplicitHistoryRound) (w : SlidingWindow)
        → w.has_state_path ≡ true
        → fate w.writes ≡ written
        → let v = (append fate r w).1 in
          let u = (init fate conversions budget true config v.file).1 in
          u.rounds ≡ newest (2 * u.max_history_rounds) (w.rounds ++ r ∷ [])
    restart_lem r w path good =
        init-loaded _ (w.rounds ++ r ∷ []) (
          rw (append-stored r w path good) (load_from_disk-stored conversions (w.rounds ++ r ∷ [])))
