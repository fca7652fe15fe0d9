-- ===== src/Dispatch/Tasks.antt =====
-- The tasks of a batch: which are finished, and what a change of one task's phase does to that.
use krakey_bot.Base.{
  ℕ, suc, String, Bool, true, false, not, ◌&&◌, ◌||◌, ◌≡◌, refl, List, [], ◌∷◌, some, elem,
  Distinct, if◌then◌else◌, ◌==◌, ==_iff, string_eq, arith, ◌<◌,
}
use text.Mathlib.TextLemmas.{append_cancel_left}
use krakey_bot.Base.Text.{decimal, decimal-injective}
use krakey_bot.Decision.{ToolCall}
use krakey_bot.Dispatch.{
  Phase, executing, done, Task, ids, call_id, create_tasks, set_phase, find_task,
}

abbrev pub is_done : Phase → Bool
is_done done = true
is_done _ = false

abbrev pub finished : List Task → List String
finished [] = []
finished (t ∷ ts) = let rest = finished ts in if is_done t.phase then t.call_id ∷ rest else rest

abbrev pub unfinished : List Task → List String
unfinished [] = []
unfinished (t ∷ ts) = let rest = unfinished ts in if is_done t.phase then rest else t.call_id ∷ rest

pub ids-set_phase : (id : String) (p : Phase) (ts : List Task) → ids (set_phase id p ts) ≡ ids ts
ids-set_phase id p [] = refl
ids-set_phase id p (t ∷ ts) = ground (arith, ids-set_phase id p ts)

pub unfinished-done :
    (a id : String) (ts : List Task)
    → elem a (unfinished (set_phase id done ts)) ≡ (elem a (unfinished ts) && not (id == a))
unfinished-done a id [] = refl
unfinished-done a id (t ∷ ts) =
    ground (arith, unfinished-done a id ts, ==_iff t.call_id id, ==_iff t.call_id a, ==_iff id a)

pub finished-done :
    (a id : String) (ts : List Task)
    → elem a (finished (set_phase id done ts))
      ≡ (elem a (finished ts) || id == a && elem a (ids ts))
finished-done a id [] = ground arith
finished-done a id (t ∷ ts) =
    ground (arith, finished-done a id ts, ==_iff t.call_id id, ==_iff t.call_id a, ==_iff id a)

unfinished-ids :
    (a : String) (ts : List Task) → elem a (ids ts) ≡ false → elem a (unfinished ts) ≡ false
unfinished-ids a [] h = refl
unfinished-ids a (t ∷ ts) h = ground (arith, unfinished-ids a ts)

finished-ids :
    (a : String) (ts : List Task) → elem a (ids ts) ≡ false → elem a (finished ts) ≡ false
finished-ids a [] h = refl
finished-ids a (t ∷ ts) h = ground (arith, finished-ids a ts)

pub find_task-call_id :
    (id : String) (ts : List Task) (t : Task) → find_task id ts ≡ some t → t.call_id ≡ id
unfolding find_task
find_task-call_id id [] t e = cc
find_task-call_id id (u ∷ ts) t e = ground (arith, find_task-call_id id ts t, ==_iff u.call_id id)

-- Where the ids are distinct, the phase of the task that is found is the phase of its id.
pub found_unfinished :
    (id : String) (ts : List Task) (t : Task)
    → Distinct (ids ts)
    → find_task id ts ≡ some t
    → is_done t.phase ≡ false
    → (t.call_id ≡ id)
      × (elem id (ids ts) ≡ true)
      × (elem id (unfinished ts) ≡ true)
      × (elem id (finished ts) ≡ false)
unfolding find_task
found_unfinished id [] t d e p = cc
found_unfinished id (u ∷ ts) t d e p =
    ground (arith, found_unfinished id ts t d.1, ==_iff u.call_id id, finished-ids u.call_id ts)

-- A task that begins to execute is as unfinished as before.
pub set_phase-same :
    (id : String) (p : Phase) (ts : List Task) → elem id (ids ts) ≡ false → set_phase id p ts ≡ ts
set_phase-same id p [] h = refl
set_phase-same id p (t ∷ ts) h = ground (arith, set_phase-same id p ts)

pub unfinished-executing :
    (id : String) (ts : List Task) (t : Task)
    → Distinct (ids ts)
    → find_task id ts ≡ some t
    → is_done t.phase ≡ false
    → (unfinished (set_phase id executing ts) ≡ unfinished ts)
      × (finished (set_phase id executing ts) ≡ finished ts)
unfolding find_task
unfinished-executing id [] t d e p = (refl, refl)
unfinished-executing id (u ∷ ts) t d e p =
    ground
      (arith, unfinished-executing id ts t d.1, ==_iff u.call_id id, set_phase-same id executing ts)

-- The ids of one batch are distinct.
call_id-injective : (hb m n : ℕ) → call_id hb m ≡ call_id hb n → m ≡ n
unfolding call_id
call_id-injective hb m n e = decimal-injective m n (
    append_cancel_left "_c" _ _
      (append_cancel_left (decimal hb) _ _ (append_cancel_left "hb" _ _ e)))

create_tasks_later :
    (hb m k : ℕ) (calls : List ToolCall)
    → m < k
    → elem (call_id hb m) (ids (create_tasks hb k calls)) ≡ false
unfolding create_tasks
create_tasks_later hb m k [] h = refl
create_tasks_later hb m k (c ∷ calls) h = ground (
  arith,
  ==_iff (call_id hb k) (call_id hb m),
  call_id-injective hb k m,
  create_tasks_later hb m (suc k) calls,
)

pub create_tasks-Distinct :
    (hb k : ℕ) (calls : List ToolCall) → Distinct (ids (create_tasks hb k calls))
unfolding create_tasks
create_tasks-Distinct hb k [] = tt
create_tasks-Distinct hb k (c ∷ calls) =
    (create_tasks_later hb k (suc k) calls (omega arith), create_tasks-Distinct hb (suc k) calls)

pub create_tasks_waiting :
    (hb k : ℕ) (calls : List ToolCall)
    → (finished (create_tasks hb k calls) ≡ [])
      × (unfinished (create_tasks hb k calls) ≡ ids (create_tasks hb k calls))
unfolding create_tasks
create_tasks_waiting hb k [] = (refl, refl)
create_tasks_waiting hb k (c ∷ calls) = ground (arith, create_tasks_waiting hb (suc k) calls)
