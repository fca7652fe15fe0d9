-- ===== src/Tests/Memory.antt =====
-- The recall, the window of rounds and the compaction, at concrete inputs.
use krakey_bot.Base.{
  Option, ℕ, zero, suc, ◌*◌, String, Bool, true, false, ◌≡◌, refl, List, [], ◌∷◌, ◌++◌, none, some,
  inl, arith,
}
use krakey_bot.Base.Text.{concat}
use krakey_bot.Base.Dict.{Dict}
use krakey_bot.Base.Action.{Outcome, returned}
use krakey_bot.Stimuli.{Stimulus}
use krakey_bot.Json.{null, str, obj, arr, nil, int, end, field}
use krakey_bot.Recall
use krakey_bot.Recall.{
  Node, Session, Settings, RecallResult, new_session, add_stimuli, finalize, sorted_entries,
}
use krakey_bot.Recall.Weights.{IsWeighted, feed, feed-new_session-IsWeighted}
use krakey_bot.Recall.Selection.{IsCut, IsResult, finalize_lem}
use krakey_bot.Recall.Enrich.{enrich}
use krakey_bot.Recall.Enrich.Phrases.{Enriched, enrich-Enriched}
use krakey_bot.History.{
  ExplicitHistoryRound, missing, Fate, written, os_error, Conversions, SlidingWindow, append, init,
}
use krakey_bot.History.Restart.{newest, restart_lem}
use krakey_bot.InMind.{Update, InMindModifier, blank, load, render_virtual_round, updates}
use krakey_bot.InMind.Reload.{as_texts, patched, reload_lem}
use krakey_bot.InMind.Latest.{last_given, updates_lem}
use krakey_bot.Compact
use krakey_bot.Compact.{Compactor, chunks_by_char_budget, compact_if_needed}
use krakey_bot.Compact.Chunks.{fit, chunks_by_char_budget_lem}
use krakey_bot.Compact.Eviction.{Evicts, compact_if_needed_lem}

abbrev node : ℕ → Node
node i = record { ident = i; name = "tea"; category = "FACT"; description = "hot" }

abbrev world : Recall.World
world = record {
  search = λ n q k. returned ((node 1, 3) ∷ (node 2, 5) ∷ []);
  recall_context = λ n ids. returned (record { neighbor_keywords = []; edges = [] });
  rerank = none;
  enrich = none;
  scripted_score = λ x s. s;
  estimate_tokens = λ t. 10;
}

abbrev settings : Settings
settings = record { per_stimulus_k = 5; recall_token_budget = 15; screening = 1 }

abbrev stimulus : ℕ → Bool → Stimulus
stimulus ident urgent = record {
  ident = ident;
  type = "user_message";
  source = "channel:chat";
  content = "tea?";
  timestamp = ident;
  adrenalin = urgent;
}

abbrev batches : List (List Stimulus)
batches = (stimulus 1 false ∷ []) ∷ (stimulus 2 true ∷ []) ∷ []

abbrev session : Session
session = feed world settings batches new_session

feed-new_session-IsWeighted_example : IsWeighted session
feed-new_session-IsWeighted_example = feed-new_session-IsWeighted world settings batches

finalize_lem_example :
    (r : RecallResult) × (n : Dict ℕ (List String)) × (k : ℕ) × ((finalize world settings session).0
      ≡ returned r)
    × IsCut world settings n (sorted_entries session) k
    × IsResult session n k r
finalize_lem_example =
    finalize_lem world settings (λ n ids. (record { neighbor_keywords = []; edges = [] }, refl))
      session (feed-new_session-IsWeighted world settings batches)

abbrev round : ℕ → ExplicitHistoryRound
round n = record {
  heartbeat_id = record { negative = false; magnitude = n };
  stimulus_summary = "channel:chat: hello";
  decision_text = "No action";
  note_text = "";
  thinking_text = "";
  recall_summary = "";
}

abbrev window : SlidingWindow
window = record {
  history_token_budget = 100;
  has_state_path = true;
  compact_threshold = 2048;
  max_history_rounds = 1;
  rounds = round 1 ∷ round 2 ∷ [];
  file = missing;
  writes = 0;
}

abbrev conversions : Conversions
conversions = record {
  float_to_int = λ r. returned (record { negative = false; magnitude = 0 });
  text_to_int = λ s. returned (record { negative = false; magnitude = 0 });
  repr = λ v. "";
}

abbrev succeeds : ℕ → Fate
succeeds n = written

restart_lem_example :
    let v = (append succeeds (round 3) window).1 in
    let u =
      (init succeeds conversions 100 true
        (field "max_history_rounds" (int false 1) end)
        v.file).1 in
    u.rounds ≡ newest (2 * u.max_history_rounds) (window.rounds ++ round 3 ∷ [])
restart_lem_example =
    restart_lem succeeds conversions 100 (field "max_history_rounds" (int false 1) end) (round 3)
      window refl refl

abbrev compact_world : Compact.World
compact_world = record {
  fate = succeeds;
  estimate_tokens = λ t. 1;
  recall_fn = λ n q. returned [];
  chat = λ n p. returned "{}";
  parse_compact_json = λ t. returned (obj (field "nodes" (arr nil) end));
  remember_extraction = λ n ns es. returned tt;
}

abbrev compactor : Compactor
compactor = record { window = window; started = []; asked = 0 }

compact_if_needed_lem_example :
    Evicts compact_world 1000 5 compactor (compact_if_needed compact_world 1000 false 5 compactor)
compact_if_needed_lem_example =
    compact_if_needed_lem compact_world (λ k. inl refl) 1000 5 false compactor

chunks_by_char_budget_lem_example :
    (concat (chunks_by_char_budget "hello world" 4) ≡ "hello world")
    × (fit 4 (chunks_by_char_budget "hello world" 4) ≡ true)
chunks_by_char_budget_lem_example = chunks_by_char_budget_lem "hello world" 4 (omega arith)

abbrev fenced : String → Outcome String (Option String)
fenced t = returned (some "```\nSam (key person)\n{\n")

enrich-Enriched_example :
    Enriched fenced
      (some "call Sam")
      "2026-05-17T00:00:00"
      (enrich fenced (some "call Sam") "2026-05-17T00:00:00")
enrich-Enriched_example = enrich-Enriched fenced (some "call Sam") "2026-05-17T00:00:00"

-- The mental state: only the second write succeeds.
abbrev flaky : ℕ → Fate
flaky (suc zero) = written
flaky n = os_error

abbrev mood : String → Update
mood s = record { thoughts = null; mood = str s; focus = null; now = "2026-05-17T00:00:00" }

abbrev fresh : InMindModifier
fresh = record { state = blank; file = missing; writes = 0 }

reload_lem_example :
    (load (λ v. "") (updates flaky (mood "calm" ∷ mood "glad" ∷ mood "sad" ∷ []) fresh).file
      ≡ returned (as_texts (λ v. "") (updates flaky (mood "calm" ∷ mood "glad" ∷ []) fresh).state))
    × ((updates flaky (mood "calm" ∷ mood "glad" ∷ mood "sad" ∷ []) fresh).state
        ≡ patched flaky
            (mood "sad" ∷ [])
            (updates flaky (mood "calm" ∷ mood "glad" ∷ []) fresh).state)
reload_lem_example =
    reload_lem flaky (λ v. "") (mood "calm" ∷ []) (mood "glad") (mood "sad" ∷ []) fresh refl refl

rendered :
    render_virtual_round (λ v. "") (updates flaky (mood "calm" ∷ []) fresh).state
    ≡ some "--- Heartbeat #now (in mind) ---\nMood: calm"
unfolding render_virtual_round updates
rendered = refl

updates_lem_example :
    let t = (updates flaky (mood "calm" ∷ mood "" ∷ []) fresh).state in
    (t.thoughts ≡ last_given (null ∷ null ∷ []) (str ""))
    × (t.mood ≡ last_given (str "calm" ∷ str "" ∷ []) (str ""))
    × (t.focus ≡ last_given (null ∷ null ∷ []) (str ""))
updates_lem_example = updates_lem flaky (mood "calm" ∷ mood "" ∷ []) fresh
