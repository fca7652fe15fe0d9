-- ===== src/Stimuli/BatchTracker/Completion.antt =====
-- When the batch tracker wakes Self.
use krakey_bot.Base.{
  String, true, false, ◌≡◌, refl, ap, ◌↔◌, List, [], ◌∷◌, ◌&&◌, not, Option, none, some, elem,
  elem-discard, discard, ==_iff, ==_refl, ◌==◌, arith, string_eq, is_empty, Distinct, empty_of_none,
  none_of_empty,
}
use krakey_bot.Stimuli.{Stimulus, Stamp}
use krakey_bot.Stimuli.BatchTracker.{BatchTracker, mark_completed, batch_complete}

-- `id` alone is still out.
abbrev pub IsLast : String → BatchTracker → Type 0
IsLast id t = (a : String) → elem a t.pending ≡ (id == a)

module _ (id : String) (t : BatchTracker) where
  IsLast-empty : IsLast id t → is_empty (discard id t.pending) ≡ true
  IsLast-empty last =
      empty_of_none (discard id t.pending) λ a. ground (arith, elem-discard a id t.pending, last a)

  empty-IsLast : elem id t.pending ≡ true → is_empty (discard id t.pending) ≡ true → IsLast id t
  empty-IsLast out e a = ground (
    arith,
    out,
    none_of_empty (discard id t.pending) e a,
    elem-discard a id t.pending,
    ==_iff id a,
  )

-- A connected tracker wakes Self by a completion exactly when that call was the last one out, and
-- a completion takes its own call, and no other, from those that are out.
pub mark_completed_lem :
    (stamp : Stamp) (id : String) (t : BatchTracker)
    → t.connected ≡ true
    → (((mark_completed stamp id t).0 ≡ some (batch_complete stamp)) ↔ IsLast id t)
      × ((a : String)
          → elem a (mark_completed stamp id t).1.pending ≡ (elem a t.pending && not (id == a)))
unfolding mark_completed
mark_completed_lem stamp id t on = (
  (
    λ fires. empty-IsLast id t (ground arith) (ground arith),
    λ last. ground (arith, last id, ==_refl id, IsLast-empty id t last),
  ),
  λ a. ground (arith, elem-discard a id t.pending, ==_iff id a),
)

-- The wake-ups of completions in the order `ids`, each with what it pushes.
pub complete_all : Stamp → List String → BatchTracker → List (Option Stimulus)
complete_all stamp [] t = []
complete_all stamp (id ∷ ids) t =
    let (woken, u) = mark_completed stamp id t in woken ∷ complete_all stamp ids u

-- No wake-up but at the last of `ids`.
abbrev pub last_only : Stamp → List String → List (Option Stimulus)
last_only stamp [] = []
last_only stamp (id ∷ []) = some (batch_complete stamp) ∷ []
last_only stamp (id ∷ ids) = none ∷ last_only stamp ids

mark_not_last :
    (stamp : Stamp) (id b : String) (t : BatchTracker)
    → elem id t.pending ≡ true
    → elem b t.pending ≡ true
    → (id == b) ≡ false
    → mark_completed stamp id t ≡ (none, record t { pending = discard id t.pending })
unfolding mark_completed
mark_not_last stamp id b t out other differ = ground (
  arith,
  λ (e : is_empty (discard id t.pending) ≡ true). none_of_empty (discard id t.pending) e b,
  elem-discard b id t.pending,
)

-- Whatever the order in which the calls that are out come back, the tracker stays
-- silent until the last of them, and then wakes Self once.
pub complete_all-last_only :
    (stamp : Stamp) (ids : List String) (t : BatchTracker)
    → t.connected ≡ true
    → Distinct ids
    → ((a : String) → elem a t.pending ≡ elem a ids)
    → complete_all stamp ids t ≡ last_only stamp ids
unfolding complete_all
complete_all-last_only stamp [] t on d h = refl
complete_all-last_only stamp (id ∷ []) t on d h =
    let fires = (mark_completed_lem stamp id t on).0.1 (λ a. ground (arith, h a)) in rw fires refl
complete_all-last_only stamp (id ∷ b ∷ ids) t on d h =
    let apart : (id == b) ≡ false = ground (arith, d.0, ==_iff b id, ==_iff id b) in
    let silent =
      mark_not_last stamp id b t (ground (arith, h id, ==_refl id)) (ground (arith, h b, ==_refl b))
        apart in
    let left = record t { pending = discard id t.pending } in
    rw silent (
      ap (λ l. none ∷ l)
        (complete_all-last_only stamp (b ∷ ids) left on d.1
          (λ a. ground (arith, h a, elem-discard a id t.pending, ==_iff id a, d.0))))

module _ (stamp : Stamp) (id : String) (t : BatchTracker) (out : elem id t.pending ≡ true) where
  abbrev without_id : BatchTracker
  without_id = record t { pending = discard id t.pending }

  pub mark_silent :
      is_empty (discard id t.pending) ≡ false → mark_completed stamp id t ≡ (none, without_id)
  unfolding mark_completed
  mark_silent e = ground arith

  pub mark_wakes :
      t.connected ≡ true
      → is_empty (discard id t.pending) ≡ true
      → mark_completed stamp id t ≡ (some (batch_complete stamp), without_id)
  unfolding mark_completed
  mark_wakes on e = ground arith
