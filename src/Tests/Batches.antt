-- ===== src/Tests/Batches.antt =====
-- engines/dispatch/dispatcher.py: a batch and its memory writes, at concrete inputs.
use krakey_bot.Base.{
  ℕ, String, Bool, true, false, not, ◌||◌, ◌≡◌, refl, List, [], ◌∷◌, ◌++◌, if◌then◌else◌, elem,
  Distinct, is_empty, nat_beq, string_eq,
}
use krakey_bot.Base.Action.{returned, is_raised}
use krakey_bot.Stimuli.{Stimulus}
use krakey_bot.Stimuli.Buffer
use krakey_bot.Json.{Json, null, str, obj, field, end}
use krakey_bot.Tools.{Tool}
use krakey_bot.Decision.{ToolCall}
use krakey_bot.Dispatch.{Dispatcher, Turn, dispatch_tool_calls, run, ids}
use krakey_bot.Dispatch.Tasks.{finished, unfinished}
use krakey_bot.Dispatch.Progress.{answered, is_silent, ends_awake}
use krakey_bot.Dispatch.Batch.{batch_lem}
use krakey_bot.Dispatch.Writes.{Memory, apply_memory_writes}
use krakey_bot.Dispatch.Writes.Isolation.{all_readable, asked, apply_memory_writes_lem}

abbrev search_tool : Tool
search_tool = record { name = "search"; description = "web search" }

abbrev call_of : String → ToolCall
call_of tool = record { tool = tool; intent = "look it up"; params = end; adrenalin = false }

abbrev idle : Dispatcher
idle = record {
  tools = ("search", search_tool) ∷ [];
  tracker = record { pending = []; connected = true };
  buffer = Buffer.empty;
  events = [];
  tasks = [];
  deliveries = [];
}

abbrev calls : List ToolCall
calls = call_of "search" ∷ call_of "missing" ∷ []

abbrev found : Stimulus
found = record {
  ident = 1;
  type = "tool_feedback";
  source = "tool:search";
  content = "found";
  timestamp = 5;
  adrenalin = false;
}

abbrev turn : String → Turn
turn id = record {
  call_id = id;
  stamps = record { own = record { ident = 2; now = 6 }; wake = record { ident = 3; now = 7 } };
  execution = returned found;
}

abbrev turns : List Turn
turns = turn "hb7_c0" ∷ turn "hb7_c1" ∷ turn "hb7_c0" ∷ []

batch_lem_example :
    let e = run (dispatch_tool_calls 7 calls idle) turns in
    Distinct (answered e.deliveries)
    × ((id : String) → elem id (answered e.deliveries) ≡ elem id (finished e.tasks))
    × ((if is_empty (unfinished e.tasks)
          then is_empty (ids e.tasks) || ends_awake e.deliveries
          else is_silent e.deliveries)
        ≡ true)
batch_lem_example =
    batch_lem 7 calls idle turns
      (record { connected = refl; no_tasks = refl; none_out = λ a. refl; no_deliveries = refl })

abbrev second_raises : ℕ → Bool
second_raises n = nat_beq n 1

abbrev write_of : Json → Json
write_of content = obj (field "content" content end)

-- The third write has no content that can be previewed, so the fourth is lost.
abbrev writes : List Json
writes = write_of (str "tea") ∷ write_of (str "milk") ∷ write_of null ∷ write_of (str "lost") ∷ []

abbrev memory : Memory
memory = record { calls = []; logged = 0 }

apply_memory_writes_lem_example :
    ((apply_memory_writes second_raises [] 7 writes memory).1.calls
      ≡ memory.calls ++ asked second_raises [] 7 writes)
    × (is_raised (apply_memory_writes second_raises [] 7 writes memory).0
        ≡ not (all_readable writes))
apply_memory_writes_lem_example = apply_memory_writes_lem second_raises [] 7 writes memory
