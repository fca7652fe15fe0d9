-- ===== src/Dispatch.antt =====
-- engines/dispatch/dispatcher.py: the side effects of a decision. A dispatched call is an asyncio
-- task; it gives way to the others only while its tool executes. So it takes two turns, and a
-- schedule is a list of turns.
pub mod Tasks
pub mod Progress
pub mod Batch
pub mod Writes
use krakey_bot.Base.{
  ℕ, suc, String, Bool, true, false, List, [], ◌∷◌, ◌++◌, Option, none, some, map, length,
  if◌then◌else◌, ◌==◌, string_eq, is_empty,
}
use krakey_bot.Base.Text.{decimal, concat}
use krakey_bot.Base.Action.{Outcome, returned, raised}
use krakey_bot.Stimuli.{Stimulus, Stamp}
use krakey_bot.Stimuli.Buffer
use krakey_bot.Stimuli.Buffer.{Buffer}
use krakey_bot.Stimuli.BatchTracker.{BatchTracker, register_batch, mark_completed}
use krakey_bot.Tools
use krakey_bot.Tools.{Tool, ToolRegistry}
use krakey_bot.Decision.{ToolCall, DecisionResult}

pub data Event : Type 0 where
  decision_executed : (heartbeat_id tool_calls memory_writes : ℕ) → (sleep : Bool) → Event
  dispatched : (heartbeat_id : ℕ) → ToolCall → Event
  tool_result : (tool content : String) → Event

pub data Phase : Type 0 where
  waiting executing done : Phase

pub record Task : Type 0 where
  pub heartbeat_id : ℕ
  pub call : ToolCall
  pub call_id : String
  pub phase : Phase

-- What is pushed to the buffer, and by whom: a task for its call, or the batch tracker.
pub data Delivery : Type 0 where
  feedback : (call_id : String) → Stimulus → Delivery
  wake_up : Stimulus → Delivery

pub record Dispatcher : Type 0 where
  pub tools : ToolRegistry
  pub tracker : BatchTracker
  pub buffer : Buffer
  pub events : List Event
  pub tasks : List Task
  pub deliveries : List Delivery

unfoldable pub log_summary : ℕ → DecisionResult → Dispatcher → Dispatcher
log_summary hb result d = record d {
  events =
      d.events
      ++ decision_executed hb (length result.tool_calls) (length result.memory_writes) result.sleep
        ∷ [];
}

-- f"hb{heartbeat_id}_c{idx}"
unfoldable pub call_id : ℕ → ℕ → String
call_id hb idx = concat ("hb" ∷ decimal hb ∷ "_c" ∷ decimal idx ∷ [])

unfoldable pub create_tasks : ℕ → ℕ → List ToolCall → List Task
create_tasks hb idx [] = []
create_tasks hb idx (call ∷ calls) =
    record { heartbeat_id = hb; call = call; call_id = call_id hb idx; phase = waiting }
    ∷ create_tasks hb (suc idx) calls

abbrev pub ids : List Task → List String
ids = map (λ t. t.call_id)

-- The tasks begin only after this has run to its end.
unfoldable pub dispatch_tool_calls : ℕ → List ToolCall → Dispatcher → Dispatcher
dispatch_tool_calls hb calls d =
    let new = create_tasks hb 0 calls in
    record d {
      tasks = d.tasks ++ new;
      tracker = if is_empty (ids new) then d.tracker else register_batch (ids new) d.tracker;
    }

deliver : Delivery → Stimulus → Dispatcher → Dispatcher
deliver what s d = record d {
  buffer = Buffer.push s d.buffer;
  deliveries = d.deliveries ++ what ∷ [];
}

push_feedback : String → Stimulus → Dispatcher → Dispatcher
push_feedback id s d = deliver (feedback id s) s d

wake : Option Stimulus → Dispatcher → Dispatcher
wake none d = d
wake (some s) d = deliver (wake_up s) s d

complete : Stamp → String → Dispatcher → Dispatcher
complete stamp id d =
    let (pushed, tracker) = mark_completed stamp id d.tracker in
    wake pushed (record d { tracker = tracker })

abbrev set_phase : String → Phase → List Task → List Task
set_phase id p [] = []
set_phase id p (t ∷ ts) =
    (if t.call_id == id then record t { phase = p } else t) ∷ set_phase id p ts

enter : String → Phase → Dispatcher → Dispatcher
enter id p d = record d { tasks = set_phase id p d.tasks }

-- The stamps of a turn: of the stimulus that the task pushes, and of the tracker's.
pub record Stamps : Type 0 where
  pub own : Stamp
  pub wake : Stamp

abbrev unknown_tool : Stamp → String → Stimulus
unknown_tool stamp tool = record {
  ident = stamp.ident;
  type = "system_event";
  source = "runtime";
  content = concat ("Unknown tool: " ∷ tool ∷ []);
  timestamp = stamp.now;
  adrenalin = false;
}

abbrev tool_error : Stamp → String → String → Stimulus
tool_error stamp tool message = record {
  ident = stamp.ident;
  type = "system_event";
  source = concat ("tool:" ∷ tool ∷ []);
  content = concat ("error: " ∷ message ∷ []);
  timestamp = stamp.now;
  adrenalin = true;
}

-- The end of a task: the push, `mark_completed` and the return.
pub settle : Stamps → Task → Stimulus → Dispatcher → Dispatcher
settle stamps t s d =
    enter t.call_id done (complete stamps.wake t.call_id (push_feedback t.call_id s d))

-- `_dispatch_one`, up to the call of `tool.execute`.
begin : Stamps → Task → Dispatcher → Dispatcher
begin stamps t d = elim (Tools.get t.call.tool d.tools) [
  | raised e ↦ settle stamps t (unknown_tool stamps.own t.call.tool) d
  | returned tool ↦
      enter t.call_id executing
        (record d { events = d.events ++ dispatched t.heartbeat_id t.call ∷ [] })
]

-- What `tool.execute` comes to: a stimulus, or an exception with its text.
abbrev pub Execution : Type 0
Execution = Outcome String Stimulus

-- The rest of `_dispatch_one`.
finish : Stamps → Execution → Task → Dispatcher → Dispatcher
finish stamps (raised message) t d = settle stamps t (tool_error stamps.own t.call.tool message) d
finish stamps (returned s) t d =
    settle stamps t s (record d { events = d.events ++ tool_result t.call.tool s.content ∷ [] })

pub record Turn : Type 0 where
  pub call_id : String
  pub stamps : Stamps
  pub execution : Execution

pub find_task : String → List Task → Option Task
find_task id [] = none
find_task id (t ∷ ts) = if t.call_id == id then some t else find_task id ts

advance : Phase → Turn → Task → Dispatcher → Dispatcher
advance waiting turn t d = begin turn.stamps t d
advance executing turn t d = finish turn.stamps turn.execution t d
advance done turn t d = d

-- A turn of the task that is named, if there is one that is not done.
unfoldable pub step : Dispatcher → Turn → Dispatcher
unfolding find_task advance begin finish settle complete wake push_feedback enter deliver
step d turn = elim (find_task turn.call_id d.tasks) [ none ↦ d | some t ↦ advance t.phase turn t d ]

unfoldable pub run : Dispatcher → List Turn → Dispatcher
run d [] = d
run d (turn ∷ turns) = run (step d turn) turns
