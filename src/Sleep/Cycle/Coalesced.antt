-- ===== src/Sleep/Cycle/Coalesced.antt =====
-- Requests for a sleep are coalesced, and each cycle is reported once.
use krakey_bot.Base.{
  ℕ, zero, suc, ◌+◌, ◌≤◌, ◌≡◌, refl, String, Bool, true, false, not, List, [], ◌∷◌, ◌++◌, some,
  length, length-append, if◌then◌else◌, leb, arith, inl, inr, Option-cases,
}
use krakey_bot.Base.Action.{Outcome, returned, raised}
use krakey_bot.Stimuli.{Stimulus, Stamp}
use krakey_bot.Stimuli.Buffer.{push}
use krakey_bot.Sleep.Cycle.{
  Lifecycle, sleep_start, sleep_done, sleep_failed, Request, from_runtime, from_storage,
  system_event, wake_text, failure_text, State, init, request_sleep, maybe_auto_sleep, hear,
  count_run, request_at, remove_at, end_request, Turn, trigger, stores, ends, turn, run,
}

abbrev pub starts : List Lifecycle → ℕ
starts [] = 0
starts (sleep_start r ∷ es) = suc (starts es)
starts (sleep_done ∷ es) = starts es
starts (sleep_failed r x ∷ es) = starts es

abbrev pub dones : List Lifecycle → ℕ
dones [] = 0
dones (sleep_start r ∷ es) = dones es
dones (sleep_done ∷ es) = suc (dones es)
dones (sleep_failed r x ∷ es) = dones es

abbrev pub failures : List Lifecycle → ℕ
failures [] = 0
failures (sleep_start r ∷ es) = failures es
failures (sleep_done ∷ es) = failures es
failures (sleep_failed r x ∷ es) = suc (failures es)

starts-append : (es fs : List Lifecycle) → starts (es ++ fs) ≡ starts es + starts fs
starts-append [] fs = omega arith
starts-append (sleep_start r ∷ es) fs = omega (arith, starts-append es fs)
starts-append (sleep_done ∷ es) fs = starts-append es fs
starts-append (sleep_failed r x ∷ es) fs = starts-append es fs

dones-append : (es fs : List Lifecycle) → dones (es ++ fs) ≡ dones es + dones fs
dones-append [] fs = omega arith
dones-append (sleep_start r ∷ es) fs = dones-append es fs
dones-append (sleep_done ∷ es) fs = omega (arith, dones-append es fs)
dones-append (sleep_failed r x ∷ es) fs = dones-append es fs

failures-append : (es fs : List Lifecycle) → failures (es ++ fs) ≡ failures es + failures fs
failures-append [] fs = omega arith
failures-append (sleep_start r ∷ es) fs = failures-append es fs
failures-append (sleep_done ∷ es) fs = failures-append es fs
failures-append (sleep_failed r x ∷ es) fs = omega (arith, failures-append es fs)

-- The cycles that are told of are the pipelines that succeeded for the runtime.
pub record IsReported (s : State) : Type 0 where
  pub flight : length s.in_flight ≡ (if s.sleeping then 1 else 0)
  pub started : starts s.events ≡ s.sleep_cycles
  pub ended : dones s.events ≡ s.sleep_cycles
  pub stimuli : length s.buffer.queue ≡ s.sleep_cycles + failures s.events
  pub urgent : s.buffer.adrenalin_event ≡ not (leb (failures s.events) 0)
  pub sessions : s.sessions ≡ s.sleep_cycles
  pub cycles : s.sleep_cycles ≤ s.cycles_run

request_sleep-IsReported :
    (llm : Bool) (r : Request) (s : State) → IsReported s → IsReported (request_sleep llm r s)
unfolding request_sleep
request_sleep-IsReported llm r s i = ground arith

maybe_auto_sleep-IsReported :
    (llm : Bool) (t n : ℕ) (s : State) → IsReported s → IsReported (maybe_auto_sleep llm t n s)
unfolding maybe_auto_sleep
maybe_auto_sleep-IsReported llm t n s i =
    ground (arith, request_sleep-IsReported llm from_storage s i)

-- The end of a request that was the only one in flight.
module _ (stamp : Stamp) (s : State) (left : List Request) (none_left : length left ≡ 0) where
  abbrev ended_state : Outcome String (Unit {0}) → State
  ended_state o = record s {
    sleeping = false;
    cycles_run = count_run o s.cycles_run;
    in_flight = left;
  }

  hear-IsReported :
      (r : Request) (o : Outcome String (Unit {0}))
      → IsReported s
      → IsReported (hear stamp r o (ended_state o))
  unfolding hear push
  hear-IsReported from_storage (returned u) i = ground arith
  hear-IsReported from_storage (raised x) i = ground arith
  hear-IsReported (from_runtime reason) (returned u) i =
      let more : List Lifecycle = sleep_start reason ∷ sleep_done ∷ [] in
      let wake : List Stimulus = system_event stamp false (wake_text reason) ∷ [] in
      record {
        flight = none_left;
        started = omega (arith, starts-append s.events more, i.started);
        ended = omega (arith, dones-append s.events more, i.ended);
        stimuli =
            omega
              (arith, failures-append s.events more, length-append s.buffer.queue wake, i.stimuli);
        urgent = ground (arith, failures-append s.events more, i.urgent);
        sessions = omega (arith, i.sessions);
        cycles = omega (arith, i.cycles);
      }
  hear-IsReported (from_runtime reason) (raised x) i =
      let more : List Lifecycle = sleep_failed reason x ∷ [] in
      let wake : List Stimulus = system_event stamp true (failure_text x) ∷ [] in
      record {
        flight = none_left;
        started = omega (arith, starts-append s.events more, i.started);
        ended = omega (arith, dones-append s.events more, i.ended);
        stimuli =
            omega
              (arith, failures-append s.events more, length-append s.buffer.queue wake, i.stimuli);
        urgent = ground (arith, failures-append s.events more);
        sessions = i.sessions;
        cycles = i.cycles;
      }

one_left :
    (n : ℕ) (rs : List Request) (r : Request)
    → length rs ≤ 1
    → request_at n rs ≡ some r
    → length (remove_at n rs) ≡ 0
one_left n [] r h k = absurd (cc)
one_left zero (q ∷ rs) r h k = omega arith
one_left (suc n) (q ∷ []) r h k = absurd (cc)
one_left (suc n) (q ∷ p ∷ rs) r h k = absurd (omega arith)

end_request-IsReported :
    (stamp : Stamp) (n : ℕ) (o : Outcome String (Unit {0})) (s : State)
    → IsReported s
    → IsReported (end_request stamp n o s)
unfolding end_request
end_request-IsReported stamp n o s i = elim (Option-cases (request_at n s.in_flight)) [
  | inl e ↦ rw (e, end_request) i
  | inr (r, e) ↦
      rw (e, end_request)
        (hear-IsReported stamp s (remove_at n s.in_flight)
          (one_left n s.in_flight r (ground (arith, i.flight)) e) r o i)
]

turn-IsReported :
    (llm : Bool) (threshold : ℕ) (t : Turn) (s : State)
    → IsReported s
    → IsReported (turn llm threshold t s)
unfolding turn
turn-IsReported llm threshold (trigger reason) s i =
    request_sleep-IsReported llm (from_runtime reason) s i
turn-IsReported llm threshold (stores n) s i = maybe_auto_sleep-IsReported llm threshold n s i
turn-IsReported llm threshold (ends stamp n o) s i = end_request-IsReported stamp n o s i

run-IsReported :
    (llm : Bool) (threshold : ℕ) (ts : List Turn) (s : State)
    → IsReported s
    → IsReported (run llm threshold ts s)
unfolding run
run-IsReported llm threshold [] s i = i
run-IsReported llm threshold (t ∷ ts) s i =
    run-IsReported llm threshold ts (turn llm threshold t s) (turn-IsReported llm threshold t s i)

-- Whatever requests, writes to the memory and ends of pipelines come after one another, from the start
-- of a runtime: there is one pipeline in flight while the engine is marked as sleeping, and
-- none else. The runtime counts as many cycles as it has published starts, and as many as it
-- has published ends; for each it opens one recall session. The queue has one stimulus for each
-- of these cycles and one for each failure, and its urgent flag is set exactly when there was a
-- failure. The engine has run at least these cycles.
pub run-init-IsReported :
    (llm : Bool) (threshold : ℕ) (ts : List Turn) → IsReported (run llm threshold ts init)
run-init-IsReported llm threshold ts = run-IsReported llm threshold ts init (record {
  flight = refl;
  started = refl;
  ended = refl;
  stimuli = refl;
  urgent = refl;
  sessions = refl;
  cycles = omega arith;
})
