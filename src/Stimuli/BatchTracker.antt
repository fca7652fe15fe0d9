-- ===== src/Stimuli/BatchTracker.antt =====
-- runtime/stimuli/batch_tracker.py: which dispatched calls are still out, and the wake-up when
-- the last of them is back.
pub mod Completion
use krakey_bot.Base.{
  String, Bool, true, false, List, [], ◌∷◌, Option, none, some, elem, discard, update,
  if◌then◌else◌, string_eq, is_empty,
}
use krakey_bot.Stimuli.{Stimulus, Stamp}

-- `connected` is `_push is not None`: `start` has handed over the callback.
pub record BatchTracker : Type 0 where
  pub pending : List String
  pub connected : Bool

abbrev pub init : BatchTracker
init = record { pending = []; connected = false }

unfoldable pub start : BatchTracker → BatchTracker
start t = record t { connected = true }

unfoldable pub register_batch : List String → BatchTracker → BatchTracker
register_batch ids t = record t { pending = update ids t.pending }

unfoldable pub extend_batch : List String → BatchTracker → BatchTracker
extend_batch ids t = record t { pending = update ids t.pending }

abbrev pub batch_complete : Stamp → Stimulus
batch_complete stamp = record {
  ident = stamp.ident;
  type = "batch_complete";
  source = "channel:batch_tracker";
  content = "All dispatched tools completed.";
  timestamp = stamp.now;
  adrenalin = true;
}

-- The stimulus that it hands to `_push`, if it does.
unfoldable pub mark_completed : Stamp → String → BatchTracker → Option Stimulus × BatchTracker
mark_completed stamp id t =
    if elem id t.pending
    then (let left = record t { pending = discard id t.pending } in
        if is_empty left.pending
        then (if t.connected then (some (batch_complete stamp), left) else (none, left))
        else (none, left))
    else (none, t)
