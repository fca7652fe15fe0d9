-- ===== src/Lib.antt =====
-- Verification of KrakeyBot, an agent that runs in heartbeats: stimuli are queued, recalled
-- against a memory, shown to a language model, and its decision is dispatched to tools.
--
-- How the parts work together. Channels and tools push stimuli into the queue
-- (krakey/runtime/stimuli). A beat (krakey/engines/heartbeat/orchestrator.py) drains it, runs the
-- slash commands among them, compacts the history, finalizes the recall, asks the model, and hands
-- the decision to the dispatcher, whose tasks push their feedback back into the queue; the
-- batch tracker wakes the next beat when the last of them is done.
--
-- Files:
--   Base: shared names; Tests, Lists, Dict, Sort, Action, Strip and Text are Python's tests, lists, dicts,
--     sorts, exceptions and texts.
--   Stimuli: krakey/models/stimulus.py and krakey/runtime/stimuli. Buffer has push, drain,
--     peek_unrecalled and has_adrenalin of StimulusBuffer, Channels its other methods (register,
--     start_all, start_one, pause_non_urgent, resume_all, stop_all, deregister), BatchTracker
--     the class BatchTrackerChannel.
--   Json, Tools, Decision: what json.loads makes, ToolRegistry of krakey/interfaces/tool.py, and the
--     values of krakey/interfaces/engines/decision.py.
--   Blocks, ToolCalls: the <tool_call> blocks of a text, and
--     krakey/engines/decision/_internal/action_executor.py with the engine of tool_call_parser.py.
--   SelfOutput: krakey/self_agent.py.
--   Dispatch: krakey/engines/dispatch/dispatcher.py. create_tasks and dispatch_tool_calls make
--     the tasks of a batch; begin and finish are the two halves of _dispatch_one, before and after
--     its one await; a schedule is a list of turns. Dispatch/Writes is apply_memory_writes.
--   Recall: krakey/engines/recall/_internal/incremental.py, with add_stimuli and finalize.
--     Recall/Enrich is enrich.py beside it.
--   History: krakey/engines/explicit_history/sliding_window.py, with the window's file.
--   Compact: krakey/engines/heartbeat/compact.py.
--   Heartbeat: Fatigue is krakey/engines/heartbeat/fatigue.py, Commands is
--     krakey/runtime/commands/commands.py with _phase_handle_commands of the orchestrator, Decide
--     is its _phase_apply_decision, PushBack its _phase_finalize_recall_and_pushback, and Idle is
--     krakey/engines/heartbeat/idle.py, with the time cut into slices.
--     RunSelf is the loop of _phase_run_self with _reassemble_on_adrenalin, Budget is
--     enforce_input_budget, and Beat is the order of the phases in beat, over a record of
--     operations for the phases.
--   Router: krakey/environment/router/router.py. Events: krakey/runtime/events/event_bus.py.
--   Prompt: krakey/prompt/elements.py.
--   MemoryGraph: krakey/engines/memory/_internal. The module has the check for cycles of
--     tools/graph.py, Storage the tables and operations of gm/storage.py, and Writer the three writers
--     of graph_memory.py and writer.py from a parsed answer on.
--   Sleep: krakey/engines/memory/_internal/sleep/migration.py, with find_revive_target of kb_lifecycle.py;
--     Sleep/Bases has the writes of knowledge_base/entry_store.py. Sleep/Consolidate is
--     consolidate_kbs of kb_lifecycle.py. Sleep/Cycle is request_sleep of
--     krakey/engines/memory/default.py and trigger_memory_sleep of krakey/runtime/runtime.py.
--   InMind: krakey/plugins/in_mind_note, with load, save and the modifier's update.
--   Tests: runs at concrete inputs.
--
-- Conventions. A method is a function on a record of the object's fields; one that may raise is
-- an Action, whose state is the one at the raise. What plugins, the memory engine, the model and
-- the file system do is a world: a function of the number of the call, with no assumption but those
-- that a theorem names. Logging is left out but where a count of it is kept. An object that is
-- compared by identity has an `ident`; what makes objects has stamps, which supply the identity and
-- the time. Floats are not modelled but for the percentage of the fatigue: there a quotient is
-- rounded to 53 bits on fuel of 53 and the divisor, which is enough since each round doubles the
-- quotient.
--
-- Bounds and fuel. `decimal` has fuel n + 1 for the number n, which loses a digit in each round; the
-- chunks of a round have fuel of the text's length, since a chunk has a character; the compaction
-- loop counts down the pops that are left, which is the bound of the source, and so does the input
-- budget with its ten rounds. The search of would_create_cycle goes along a walk that visits no node
-- twice, so twice the number of the edges, and one, is enough rounds. The loop of _phase_run_self
-- has no bound in the source: it runs on fuel, and each round uses up one unit. The other loops are over lists.
--
-- Not modelled: of the memory engine, the searches, embeddings, automatic ingestion, and of its sleep
-- the clustering, the archiving and the index graph; the model clients, the environments, the other
-- plugins, the dashboard and the command line (processes, network and files), the configuration
-- readers; of the orchestrator, the summaries, the prompt log and the idle interval; of the
-- decision engines, the translator of hypothalamus.py and the prose of the prompts; of the
-- recall, the arithmetic of the scripted score; of the compaction, the
-- reading of the model's JSON.
pub mod Base
pub mod Stimuli
pub mod Json
pub mod Tools
pub mod Decision
pub mod Dispatch
pub mod Recall
pub mod History
pub mod Compact
pub mod Heartbeat
pub mod Router
pub mod Events
pub mod Prompt
pub mod InMind
pub mod MemoryGraph
pub mod Sleep
pub mod Blocks
pub mod ToolCalls
pub mod SelfOutput
mod Tests
