-- ===== src/Dispatch/Batch.antt =====
-- A batch from its dispatch on, under every schedule of its tasks.
use krakey_bot.Base.{
  ℕ, String, true, false, ◌||◌, ◌≡◌, subst, refl, ap, sym, ◌∙◌, List, [], ◌∷◌, ◌++◌, some, elem,
  elem-update, Distinct, is_empty, none_of_empty, inl, inr, Bool-cases, Bool-clash, Option-cases,
  if◌then◌else◌, string_eq, arith,
}
use krakey_bot.Base.Action.{returned, raised, Outcome-cases}
use krakey_bot.Stimuli.BatchTracker.{register_batch}
use krakey_bot.Tools
use krakey_bot.Decision.{ToolCall}
use krakey_bot.Dispatch.{
  Dispatcher, Task, Phase, waiting, executing, done, Stamps, Turn, Execution, ids, create_tasks,
  dispatch_tool_calls, find_task, enter, begin, finish, advance, step, run,
}
use krakey_bot.Dispatch.Tasks.{
  is_done, finished, unfinished, ids-set_phase, find_task-call_id, unfinished-executing,
  create_tasks-Distinct, create_tasks_waiting,
}
use krakey_bot.Dispatch.Progress.{answered, is_silent, ends_awake, Progress, settle-Progress}

begin-Progress :
    (stamps : Stamps) (t : Task) (d : Dispatcher)
    → Progress d
    → find_task t.call_id d.tasks ≡ some t
    → is_done t.phase ≡ false
    → Progress (begin stamps t d)
unfolding begin enter
begin-Progress stamps t d p found live = elim (Outcome-cases (Tools.get t.call.tool d.tools)) [
  | inl (x, e) ↦ rw (e, begin) (settle-Progress stamps t _ d p found live)
  | inr (tool, e) ↦
      let (same, also) = unfinished-executing t.call_id d.tasks t p.distinct found live in
      rw (e, begin)
        (record {
          connected = p.connected;
          distinct = rw ids-set_phase p.distinct;
          out = λ a. rw same (p.out a);
          sent = λ a. rw also (p.sent a);
          once = p.once;
          silent = λ more. p.silent (rw same at more);
          awake = λ none_left more. p.awake (rw same at none_left) (rw ids-set_phase at more);
        })
]

finish-Progress :
    (stamps : Stamps) (x : Execution) (t : Task) (d : Dispatcher)
    → Progress d
    → find_task t.call_id d.tasks ≡ some t
    → is_done t.phase ≡ false
    → Progress (finish stamps x t d)
unfolding finish
finish-Progress stamps (raised m) t d p found live = settle-Progress stamps t _ d p found live
finish-Progress stamps (returned s) t d p found live =
    settle-Progress stamps t s _
      (record {
        connected = p.connected;
        distinct = p.distinct;
        out = p.out;
        sent = p.sent;
        once = p.once;
        silent = p.silent;
        awake = p.awake;
      })
      found live

advance-Progress :
    (phase : Phase) (turn : Turn) (t : Task) (d : Dispatcher)
    → t.phase ≡ phase
    → Progress d
    → find_task t.call_id d.tasks ≡ some t
    → Progress (advance phase turn t d)
unfolding advance
advance-Progress waiting turn t d e p found = begin-Progress turn.stamps t d p found (ap is_done e)
advance-Progress executing turn t d e p found =
    finish-Progress turn.stamps turn.execution t d p found (ap is_done e)
advance-Progress done turn t d e p found = p

step-Progress : (d : Dispatcher) (turn : Turn) → Progress d → Progress (step d turn)
unfolding step
step-Progress d turn p = elim (Option-cases (find_task turn.call_id d.tasks)) [
  | inl e ↦ rw (e, step) p
  | inr (t, e) ↦
      rw (e, step)
        (advance-Progress t.phase turn t d refl p (
          subst (λ id. find_task id d.tasks ≡ some t)
            (sym (find_task-call_id turn.call_id d.tasks t e)) e))
]

run-Progress : (d : Dispatcher) (turns : List Turn) → Progress d → Progress (run d turns)
unfolding run
run-Progress d [] p = p
run-Progress d (turn ∷ turns) p = run-Progress (step d turn) turns (step-Progress d turn p)

-- A dispatcher between two batches: nothing is out.
pub record IsIdle (d : Dispatcher) : Type 0 where
  pub connected : d.tracker.connected ≡ true
  pub no_tasks : d.tasks ≡ []
  pub none_out : (a : String) → elem a d.tracker.pending ≡ false
  pub no_deliveries : d.deliveries ≡ []

module _ (hb : ℕ) (calls : List ToolCall) (d : Dispatcher) (i : IsIdle d) where
  abbrev batch : List Task
  batch = create_tasks hb 0 calls

  tasks_after : (dispatch_tool_calls hb calls d).tasks ≡ batch
  unfolding dispatch_tool_calls
  tasks_after = ap (λ l. l ++ batch) i.no_tasks

  out_after :
      (a : String) → elem a (dispatch_tool_calls hb calls d).tracker.pending ≡ elem a (ids batch)
  unfolding dispatch_tool_calls register_batch
  out_after a = elim (Bool-cases (is_empty (ids batch))) [
    | inl e ↦ rw e (i.none_out a ∙ sym (none_of_empty (ids batch) e a))
    | inr e ↦ rw e (ground (arith, elem-update a (ids batch) d.tracker.pending, i.none_out a))
  ]

  connected_after : (dispatch_tool_calls hb calls d).tracker.connected ≡ true
  unfolding dispatch_tool_calls register_batch
  connected_after = elim (Bool-cases (is_empty (ids batch))) [
    | inl e ↦ rw e i.connected
    | inr e ↦ rw e i.connected
  ]

  deliveries_after : (dispatch_tool_calls hb calls d).deliveries ≡ []
  unfolding dispatch_tool_calls
  deliveries_after = i.no_deliveries

  dispatch_tool_calls-Progress : Progress (dispatch_tool_calls hb calls d)
  dispatch_tool_calls-Progress =
      let (none_done, all_out) = create_tasks_waiting hb 0 calls in
      record {
        connected = connected_after;
        distinct = rw tasks_after (create_tasks-Distinct hb 0 calls);
        out = λ a. rw (tasks_after, all_out) (out_after a);
        sent = λ a. rw (tasks_after, none_done, deliveries_after) refl;
        once = rw deliveries_after tt;
        silent = λ _. rw deliveries_after refl;
        awake = λ none_left some_tasks.
            Bool-clash (rw (tasks_after, all_out) at none_left) (rw tasks_after at some_tasks);
      }

-- A batch dispatched while nothing is out, after any turns of its tasks, whatever the tools do. Each
-- call whose task is finished has had its feedback pushed, once, and no other call has.
-- While a task is unfinished there has been no wake-up; once all of a batch that is not empty are
-- finished there has been one, and it is the last of the deliveries.
pub batch_lem :
    (hb : ℕ) (calls : List ToolCall) (d : Dispatcher) (turns : List Turn)
    → IsIdle d
    → let e = run (dispatch_tool_calls hb calls d) turns in
      Distinct (answered e.deliveries)
      × ((id : String) → elem id (answered e.deliveries) ≡ elem id (finished e.tasks))
      × ((if is_empty (unfinished e.tasks)
            then is_empty (ids e.tasks) || ends_awake e.deliveries
            else is_silent e.deliveries)
          ≡ true)
batch_lem hb calls d turns i =
    let e = run (dispatch_tool_calls hb calls d) turns in
    let p =
      run-Progress (dispatch_tool_calls hb calls d) turns
        (dispatch_tool_calls-Progress hb calls d i) in
    (p.once, p.sent, ground (arith, p.silent, p.awake))
