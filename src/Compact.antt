-- ===== src/Compact.antt =====
-- engines/heartbeat/compact.py: the oldest rounds of the window go into memory. The memory engine
-- and the model are a world, asked by the number of the question; so is `_parse_compact_json`.
pub mod Chunks
pub mod Rounds
pub mod Eviction
use krakey_bot.Base.{
  ℕ, zero, suc, ◌+◌, ◌*◌, String, Bool, true, false, not, ◌&&◌, ◌||◌, List, [], ◌∷◌, ◌++◌, Option,
  none, some, map, length, keep, is_empty, if◌then◌else◌, ltb, nat_beq, ◌==◌, string_eq,
}
use krakey_bot.Base.Text.{concat, join, text_length, text_take, text_drop}
use krakey_bot.Base.Action.{Action, Outcome, returned, raised, pure, throw, modify, ◌>>=◌, ◌>>◌}
use krakey_bot.Json.{Json, Items, Fields, str, arr, obj, nil, cons, get, get_or, truthy}
use krakey_bot.Recall.{Node}
use krakey_bot.History
use krakey_bot.History.{ExplicitHistoryRound, SlidingWindow, Fate, pop_oldest, needs_compact}

pub data Error : Type 0 where
  history_error : History.Error → Error
  attribute_error type_error world_error : Error

pub record NodeSpec : Type 0 where
  pub name : Json
  pub category : Json
  pub description : Json

pub record EdgeSpec : Type 0 where
  pub source_name : Json
  pub target_name : Json
  pub predicate : Json

pub record World : Type 0 where
  pub fate : ℕ → Fate
  pub estimate_tokens : String → ℕ
  pub recall_fn : ℕ → String → Outcome Error (List Node)
  pub chat : ℕ → String → Outcome Error String
  pub parse_compact_json : String → Outcome Error Json
  pub remember_extraction : ℕ → List NodeSpec → List EdgeSpec → Outcome Error (Unit {0})

-- `started` are the rounds whose compaction was begun, `asked` the number of questions.
pub record Compactor : Type 0 where
  pub window : SlidingWindow
  pub started : List ExplicitHistoryRound
  pub asked : ℕ

unfoldable pub format_existing : List Node → String
format_existing [] = "(none)"
format_existing (n ∷ ns) =
    join "\n" (
      map (λ m. concat ("- [" ∷ m.name ∷ "] (" ∷ m.category ∷ ") — " ∷ m.description ∷ []))
        (n ∷ ns))

-- COMPACT_PROMPT.format(...)
unfoldable pub compact_prompt : ExplicitHistoryRound → List Node → String
unfolding format_existing
compact_prompt r existing = concat (
    "Distill a past conversation segment, extracting information worth remembering.\n\n## Content\nThinking: "
    ∷ r.thinking_text
    ∷ "\nStimulus: "
    ∷ r.stimulus_summary
    ∷ "\nDecision: "
    ∷ r.decision_text
    ∷ "\nNote: "
    ∷ r.note_text
    ∷ "\n\n## Existing nodes (for reference; reuse them to avoid duplicates)\n"
    ∷ format_existing existing
    ∷ "\n\n## Output (strict JSON; output JSON only)\n{\n  \"nodes\": [\n    {\"name\": \"short label\",\n"
    ∷ "      \"category\": \"FACT|RELATION|KNOWLEDGE|TARGET|FOCUS\",\n      \"description\": \"brief description\"}\n"
    ∷ "  ],\n  \"edges\": [\n    {\"source_name\": \"name\", \"target_name\": \"name\",\n"
    ∷ "      \"predicate\": \"RELATED_TO|SERVES|DEPENDS_ON|INDUCES|SUMMARIZES|\"\n"
    ∷ "                   \"SUPPORTS|CONTRADICTS|FOLLOWS|CAUSES\"}\n  ]\n}\n\n## Rules\n"
    ∷ "1. Only extract things worth remembering. Skip small talk.\n"
    ∷ "2. If overlapping with an existing node → do not create a new node; connect via edges instead.\n"
    ∷ "3. Respect the edge-type constraints.\n4. The graph must be acyclic.\n"
    ∷ [])

-- The loops over `parsed.get("nodes", [])` and `parsed.get("edges", [])`.
abbrev has_value : String → Fields → Bool
unfolding get truthy
has_value key d = elim (get key d) [ none ↦ false | some v ↦ truthy v ]

unfoldable pub node_specs : Items → Outcome Error (List NodeSpec)
unfolding get_or has_value
node_specs nil = returned []
node_specs (cons (obj n) l) =
    let rest = node_specs l in
    if has_value "name" n && has_value "category" n
    then elim rest [
      | raised x ↦ raised x
      | returned specs ↦ returned (
          record {
            name = get_or "name" (str "") n;
            category = get_or "category" (str "") n;
            description = get_or "description" (str "") n;
          }
          ∷ specs)
    ]
    else rest
node_specs (cons v l) = raised attribute_error

unfoldable pub edge_specs : Items → Outcome Error (List EdgeSpec)
unfolding get_or has_value
edge_specs nil = returned []
edge_specs (cons (obj e) l) =
    let rest = edge_specs l in
    if has_value "source_name" e && has_value "target_name" e
    then elim rest [
      | raised x ↦ raised x
      | returned specs ↦ returned (
          record {
            source_name = get_or "source_name" (str "") e;
            target_name = get_or "target_name" (str "") e;
            predicate = get_or "predicate" (str "") e;
          }
          ∷ specs)
    ]
    else rest
edge_specs (cons v l) = raised attribute_error

-- What a `for` iterates over: a dict yields its keys and a text its
-- characters; all of these are texts, on the first of which the loop raises.
abbrev iterate : Json → Outcome Error Items
iterate (arr l) = returned l
iterate (str s) = returned (if s == "" then nil else cons (str s) nil)
iterate (obj Fields.end) = returned nil
iterate (obj (Fields.field k v d)) = returned (cons (str k) nil)
iterate _ = raised type_error

abbrev listed : String → Fields → Outcome Error Items
unfolding get_or
listed key d = iterate (get_or key (arr nil) d)

-- On fuel, of which the length of the text is enough, for a positive `chars`: for zero, which no call
-- passes, `range` raises ValueError in the source.
unfoldable pub chunks_on : ℕ → ℕ → String → List String
chunks_on zero chars text = []
chunks_on (suc f) chars text =
    let rest = chunks_on f chars (text_drop chars text) in
    if text == "" then [] else text_take chars text ∷ rest

unfoldable pub chunks_by_char_budget : String → ℕ → List String
unfolding chunks_on
chunks_by_char_budget text chars = chunks_on (text_length text) chars text

module _ (world : World) where
  -- A question to the world, and an outcome that changes nothing.
  unfoldable pub ask : {A : Type 0} → (ℕ → Outcome Error A) → Action Error Compactor A
  ask f c = (f c.asked, record c { asked = c.asked + 1 })

  unfoldable pub lift : {A : Type 0} → Outcome Error A → Action Error Compactor A
  lift o c = (o, c)

  unfoldable pub begin : ExplicitHistoryRound → Action Error Compactor (Unit {0})
  begin r c = pure tt (record c { started = c.started ++ r ∷ [] })

  unfoldable pub apply_extraction : Json → Action Error Compactor (Unit {0})
  unfolding node_specs edge_specs listed lift ask
  apply_extraction (obj parsed) = lift (listed "nodes" parsed) >>= λ ns.
      lift (node_specs ns) >>= λ nodes. lift (listed "edges" parsed) >>= λ es.
      lift (edge_specs es) >>= λ edges. ask (λ n. world.remember_extraction n nodes edges)
  apply_extraction _ = throw attribute_error

  -- round_.stimulus_summary or round_.decision_text or round_.note_text
  abbrev query_of : ExplicitHistoryRound → String
  query_of r =
      if not (r.stimulus_summary == "")
      then r.stimulus_summary
      else if not (r.decision_text == "")
      then r.decision_text
      else r.note_text

  unfoldable pub existing_nodes : String → Action Error Compactor (List Node)
  unfolding ask
  existing_nodes query = if query == "" then pure [] else ask (λ n. world.recall_fn n query)

  -- The prompt, the model's answer, and what is extracted from it.
  unfoldable pub ask_model :
      Bool → ExplicitHistoryRound → List Node → Action Error Compactor (Unit {0})
  unfolding apply_extraction compact_prompt ask lift
  ask_model include_recall_context r existing =
      let prompt = compact_prompt r existing in
      let with_recall =
        concat
          (prompt ∷ "\nRecall context active during this beat: " ∷ r.recall_summary ∷ "\n" ∷ []) in
      ask (λ n.
        world.chat n
          (if include_recall_context && not (r.recall_summary == "") then with_recall else prompt))
      >>= λ raw. lift (world.parse_compact_json raw) >>= λ parsed. apply_extraction parsed

  unfoldable pub compact_begun : Bool → ExplicitHistoryRound → Action Error Compactor (Unit {0})
  unfolding existing_nodes ask_model
  compact_begun include_recall_context r =
      existing_nodes (query_of r) >>= λ existing. ask_model include_recall_context r existing

  unfoldable pub compact_round : Bool → ExplicitHistoryRound → Action Error Compactor (Unit {0})
  unfolding begin compact_begun
  compact_round include_recall_context r = begin r >> compact_begun include_recall_context r

  -- `window.pop_oldest()`, on the compactor's window.
  abbrev raise_here : {A : Type 0} → Outcome History.Error A → Outcome Error A
  raise_here (returned a) = returned a
  raise_here (raised x) = raised (history_error x)

  unfoldable pub pop : Action Error Compactor (Option ExplicitHistoryRound)
  unfolding pop_oldest
  pop c = let (o, w) = pop_oldest world.fate c.window in (raise_here o, record c { window = w })

  -- The non-empty texts of a round, with spaces between.
  abbrev full_text : ExplicitHistoryRound → String
  full_text r = join " " (
      keep (λ t. not (t == ""))
        (r.thinking_text ∷ r.stimulus_summary ∷ r.decision_text ∷ r.note_text ∷ []))

  abbrev synthetic : ExplicitHistoryRound → String → ExplicitHistoryRound
  synthetic oldest chunk = record {
    heartbeat_id = oldest.heartbeat_id;
    stimulus_summary = chunk;
    decision_text = "";
    note_text = "";
    thinking_text = "";
    recall_summary = "";
  }

  abbrev max : ℕ → ℕ → ℕ
  max a b = if ltb a b then b else a

  unfoldable pub compact_chunks :
      ExplicitHistoryRound → List String → Action Error Compactor (Unit {0})
  unfolding compact_round
  compact_chunks oldest [] = pure tt
  compact_chunks oldest (chunk ∷ rest) =
      compact_round false (synthetic oldest chunk) >> compact_chunks oldest rest

  unfoldable pub split_and_compact_single_round : ℕ → Action Error Compactor (Unit {0})
  unfolding compact_chunks chunks_by_char_budget pop
  split_and_compact_single_round split_chunk_tokens = pop >>= λ o. elim o [
    | none ↦ pure tt
    | some oldest ↦
        compact_chunks oldest
          (chunks_by_char_budget (full_text oldest) (max 80 (split_chunk_tokens * 4)))
  ]

  abbrev pub is_over : Compactor → Bool
  is_over c = needs_compact world.estimate_tokens c.window

  abbrev pub split_if_single : ℕ → Action Error Compactor (Unit {0})
  unfolding split_and_compact_single_round
  split_if_single split_chunk_tokens c =
      (if is_over c && nat_beq (length c.window.rounds) 1
          then split_and_compact_single_round split_chunk_tokens
          else pure tt)
        c

  abbrev pub goes_on : Compactor → Bool
  goes_on c = is_over c && ltb 1 (length c.window.rounds)

  -- The loop, with the pops that are left: `max_pops - pops`.
  unfoldable pub compact_loop : Bool → ℕ → ℕ → Action Error Compactor (Unit {0})
  unfolding compact_round pop split_if_single
  compact_loop include split zero c = (if goes_on c then pure tt else split_if_single split) c
  compact_loop include split (suc left) c =
      let pop_one = pop >>= λ o. elim o [
        | none ↦ pure tt
        | some oldest ↦ compact_round include oldest >> compact_loop include split left
      ] in
      (if goes_on c then pop_one else split_if_single split) c

  unfoldable pub compact_if_needed :
      (split_chunk_tokens : ℕ) → Bool → (max_pops : ℕ) → Action Error Compactor (Unit {0})
  unfolding compact_loop
  compact_if_needed split_chunk_tokens include_recall_context max_pops =
      compact_loop include_recall_context split_chunk_tokens max_pops
