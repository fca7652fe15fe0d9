-- ===== src/Heartbeat/Idle.antt =====
-- engines/heartbeat/idle.py. Time is cut into slices: what arrives until a wait is over, whether it
-- timed out, and what arrives behind the wait, while the rest of the slice is slept or the recall
-- takes a batch. The slices given are those that begin before the deadline.
pub mod Waits
use krakey_bot.Base.{ℕ, Bool, true, false, List, [], ◌∷◌, ◌++◌, if◌then◌else◌, ltb, is_empty}
use krakey_bot.Stimuli.{Stimulus}
use krakey_bot.Stimuli.Buffer.{Buffer, push, peek_unrecalled, has_adrenalin}

-- clamp(value, lo, hi), on times that are counted.
unfoldable pub clamp : ℕ → ℕ → ℕ → ℕ
clamp value lo hi =
    let least = if ltb value hi then value else hi in if ltb lo least then least else lo

pub record Slice : Type 0 where
  pub arrives : List Stimulus
  pub timed_out : Bool
  pub arrives_asleep : List Stimulus

unfoldable pub push_all : List Stimulus → Buffer → Buffer
unfolding push
push_all [] b = b
push_all (s ∷ l) b = push_all l (push s b)

abbrev asleep : Slice → List Stimulus
asleep t = if t.timed_out then [] else t.arrives_asleep

-- The loop of `wait_or_adrenalin`.
unfoldable pub wait_slices : List Slice → Buffer → Bool × Buffer
unfolding push_all has_adrenalin
wait_slices [] b = (false, b)
wait_slices (t ∷ rest) b =
    let c = push_all t.arrives b in
    let later = wait_slices rest (push_all (asleep t) c) in
    if has_adrenalin c then (true, c) else later

unfoldable pub wait_or_adrenalin : (seconds : ℕ) → List Slice → Buffer → Bool × Buffer
unfolding wait_slices has_adrenalin
wait_or_adrenalin seconds slices b =
    if has_adrenalin b
    then (true, b)
    else if ltb 0 seconds
    then wait_slices slices b
    else (false, b)

-- The batches that were handed to `recall.add_stimuli`, in order, and the buffer.
pub record Idle : Type 0 where
  pub fed : List (List Stimulus)
  pub buffer : Buffer

-- `new = buffer.peek_unrecalled()`, handed on if there is any.
unfoldable pub feed : Idle → Idle
unfolding peek_unrecalled
feed i =
    let (new, b) = peek_unrecalled i.buffer in
    record { fed = if is_empty new then i.fed else i.fed ++ new ∷ []; buffer = b }

unfoldable pub idle_slices : List Slice → Idle → Idle
unfolding feed push_all has_adrenalin
idle_slices [] i = i
idle_slices (t ∷ rest) i =
    let arrived = record i { buffer = push_all t.arrives i.buffer } in
    let given = feed arrived in
    let fed = record given { buffer = push_all t.arrives_asleep given.buffer } in
    let later = idle_slices rest fed in
    let waiting = idle_slices rest arrived in
    if t.timed_out then waiting else if has_adrenalin fed.buffer then fed else later

unfoldable pub idle_with_recall : List Slice → Buffer → Idle
unfolding feed idle_slices has_adrenalin
idle_with_recall slices b =
    let i : Idle = record { fed = []; buffer = b } in
    if has_adrenalin b then feed i else idle_slices slices i
