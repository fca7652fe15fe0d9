-- ===== src/Recall.antt =====
-- engines/recall/_internal/incremental.py: one beat's recall session. The memory engine, the
-- reranker and the enricher are a world, asked by the number of the question. A score is known by
-- its rank among the floats, so that it is a number; the scripted score is a function.
pub mod Weights
pub mod Selection
pub mod Enrich
use krakey_bot.Base.{
  ℕ, suc, ◌+◌, ◌-◌, String, Bool, true, false, List, [], ◌∷◌, ◌++◌, Option, none, some, map, length,
  any, elem, is_empty, if◌then◌else◌, ◌==◌, nat_eq, nat_beq, string_eq, ltb, leb,
}
use krakey_bot.Base.Text.{concat, join}
use krakey_bot.Base.Dict
use krakey_bot.Base.Dict.{Dict}
use krakey_bot.Base.Sort.Descending.{sort_down}
use krakey_bot.Base.Action.{
  Action, Outcome, returned, raised, pure, throw, gets, modify, ◌>>=◌, ◌>>◌,
}
use krakey_bot.Stimuli.{Stimulus}

pub record Node : Type 0 where
  pub ident : ℕ
  pub name : String
  pub category : String
  pub description : String

pub record Entry : Type 0 where
  pub node : Node
  pub weight : ℕ

pub data Error : Type 0 where
  memory_error : Error

-- What `memory.recall_context` returns.
pub record Context : Type 0 where
  pub neighbor_keywords : Dict ℕ (List String)
  pub edges : List (ℕ × ℕ)

pub record World : Type 0 where
  pub search : ℕ → String → (top_k : ℕ) → Outcome Error (List (Node × ℕ))
  pub recall_context : ℕ → List ℕ → Outcome Error Context
  pub rerank : Option (ℕ → String → List String → Outcome Error (List ℕ))
  pub enrich : Option (ℕ → String → Outcome Error (Option (List String)))
  pub scripted_score : Node → ℕ → ℕ
  pub estimate_tokens : String → ℕ

-- `screening` is the size that the screening target asks for, `ceil(budget * multiplier / 30)`.
pub record Settings : Type 0 where
  pub per_stimulus_k : ℕ
  pub recall_token_budget : ℕ
  pub screening : ℕ

-- `asked` counts the questions to the world.
pub record Session : Type 0 where
  pub merged : Dict ℕ Entry
  pub processed_stimuli : List Stimulus
  pub per_stimulus_ids : List (List ℕ)
  pub asked : ℕ

abbrev pub new_session : Session
new_session = record { merged = []; processed_stimuli = []; per_stimulus_ids = []; asked = 0 }

pub record RecallNode : Type 0 where
  pub node : Node
  pub neighbor_keywords : List String
  pub score : ℕ

pub record RecallResult : Type 0 where
  pub nodes : List RecallNode
  pub edges : List (ℕ × ℕ)
  pub covered_stimuli : List Stimulus
  pub uncovered_stimuli : List Stimulus

unfoldable pub doc_for_rerank : Node → String
doc_for_rerank n =
    if n.description == "" then n.name else concat (n.name ∷ ": " ∷ n.description ∷ [])

abbrev pub zip {ℓ κ} : {A : Type ℓ} {B : Type κ} → List A → List B → List (A × B)
zip [] ys = []
zip (x ∷ xs) [] = []
zip (x ∷ xs) (y ∷ ys) = (x, y) ∷ zip xs ys

abbrev pub get_or {ℓ κ} : {A : Type ℓ} {B : Type κ} → Option A → B → (A → B) → B
get_or none d f = d
get_or (some a) d f = f a

unfoldable pub weight_of : Stimulus → ℕ
weight_of s = if s.adrenalin then 10 else 1

-- The nodes' best scores within one stimulus: a node that is found again keeps the higher.
unfoldable pub keep_best : List (Node × ℕ) → Dict ℕ (Node × ℕ) → Dict ℕ (Node × ℕ)
keep_best [] best = best
keep_best ((node, score) ∷ ranked) best =
    let better = get_or (Dict.get node.ident best) true (λ p. ltb p.1 score) in
    keep_best ranked (if better then Dict.put node.ident (node, score) best else best)

-- The per-stimulus union merged into the shared accumulator.
unfoldable pub merge : ℕ → Dict ℕ (Node × ℕ) → Dict ℕ Entry → Dict ℕ Entry
merge w [] m = m
merge w ((nid, (node, score)) ∷ best) m =
    let entry =
      get_or (Dict.get nid m) (record { node = node; weight = w })
        (λ e. record e { weight = e.weight + w }) in
    merge w best (Dict.put nid entry m)

-- The end of the round for one stimulus.
unfoldable pub accumulate : Stimulus → Dict ℕ (Node × ℕ) → Session → Session
unfolding weight_of merge
accumulate x best s = record s {
  merged = merge (weight_of x) best s.merged;
  per_stimulus_ids = s.per_stimulus_ids ++ Dict.keys best ∷ [];
  processed_stimuli = s.processed_stimuli ++ x ∷ [];
}

abbrev pub keywords_of : Dict ℕ (List String) → Entry → List String
keywords_of neighbors e = get_or (Dict.get e.node.ident neighbors) [] (λ k. k)

-- `hit_ids & selected_ids` is not empty.
abbrev pub meets : List ℕ → List ℕ → Bool
meets hits selected = any (λ i. elem i selected) hits

unfoldable pub classify : List ℕ → List (Stimulus × List ℕ) → List Stimulus × List Stimulus
classify selected [] = ([], [])
classify selected ((x, hits) ∷ l) =
    let (covered, uncovered) = classify selected l in
    if meets hits selected then (x ∷ covered, uncovered) else (covered, x ∷ uncovered)

abbrev pub ids_of : List Entry → List ℕ
ids_of = map (λ e. e.node.ident)

abbrev pub render : Dict ℕ (List String) → Entry → RecallNode
render neighbors e = record {
  node = e.node;
  neighbor_keywords = keywords_of neighbors e;
  score = e.weight;
}

abbrev pub sorted_entries : Session → List Entry
sorted_entries s = sort_down (λ e. e.weight) (Dict.values s.merged)

module _ (world : World) (c : Settings) where
  -- A question to the world.
  abbrev ask {ℓ} : {A : Type ℓ} → (ℕ → A) → Session → A × Session
  ask f s = (f s.asked, record s { asked = s.asked + 1 })

  abbrev by_scripted_score : List (Node × ℕ) → List (Node × ℕ)
  by_scripted_score cs = sort_down (λ p. p.1) (map (λ p. (p.0, world.scripted_score p.0 p.1)) cs)

  -- The reranker's answer, unless it raised or has another length.
  abbrev reranked : List (Node × ℕ) → Outcome Error (List ℕ) → List (Node × ℕ)
  reranked cs (returned scores) =
      if nat_beq (length scores) (length cs)
      then sort_down (λ p. p.1) (zip (map (λ p. p.0) cs) scores)
      else by_scripted_score cs
  reranked cs (raised x) = by_scripted_score cs

  unfoldable pub rerank_or_fallback : String → List (Node × ℕ) → Session → List (Node × ℕ) × Session
  unfolding doc_for_rerank
  rerank_or_fallback query cs s = elim (is_empty cs) [
    | true ↦ ([], s)
    | false ↦
        get_or world.rerank (by_scripted_score cs, s)
          λ rerank.
            let docs = map (λ p. doc_for_rerank p.0) cs in
            let (scores, t) = ask (λ n. rerank n query docs) s in (reranked cs scores, t)
  ]

  abbrev max : ℕ → ℕ → ℕ
  max a b = if ltb a b then b else a

  abbrev min : ℕ → ℕ → ℕ
  min a b = if ltb b a then b else a

  unfoldable pub screening_top_k : ℕ
  screening_top_k = max 1 (min c.per_stimulus_k c.screening)

  -- The loop over a stimulus's queries.
  unfoldable pub search_all :
      List String → Dict ℕ (Node × ℕ) → Action Error Session (Dict ℕ (Node × ℕ))
  unfolding rerank_or_fallback screening_top_k keep_best
  search_all [] best s = pure best s
  search_all (q ∷ qs) best s =
      let (found, t) = ask (λ n. world.search n q screening_top_k) s in
      elim found [
        | raised x ↦ throw x t
        | returned candidates ↦
            let (ranked, u) = rerank_or_fallback q candidates t in
            search_all qs (keep_best ranked best) u
      ]

  abbrev phrases : String → Outcome Error (Option (List String)) → List String
  phrases content (returned (some (p ∷ ps))) = p ∷ ps
  phrases content _ = content ∷ []

  unfoldable pub queries : Stimulus → Session → List String × Session
  queries x s =
      get_or world.enrich (x.content ∷ [], s)
        λ enrich. let (answer, t) = ask (λ n. enrich n x.content) s in (phrases x.content answer, t)

  unfoldable pub add_stimuli : List Stimulus → Action Error Session (Unit {0})
  unfolding queries search_all accumulate
  add_stimuli [] s = pure tt s
  add_stimuli (x ∷ xs) s =
      let (qs, t) = queries x s in
      (search_all qs [] >>= λ best. modify (accumulate x best) >> add_stimuli xs) t

  unfoldable pub estimate_node_render_tokens : Node → List String → ℕ
  estimate_node_render_tokens n keywords =
      let header =
        world.estimate_tokens
          (concat ("- [" ∷ n.name ∷ "] (" ∷ n.category ∷ ") — " ∷ n.description ∷ [])) in
      if is_empty keywords
      then header
      else header + world.estimate_tokens (concat ("  neighbors: " ∷ join ", " keywords ∷ []))

  abbrev pub cost : Dict ℕ (List String) → Entry → ℕ
  unfolding estimate_node_render_tokens
  cost neighbors e = estimate_node_render_tokens e.node (keywords_of neighbors e)

  -- The walk in weight order: `first` while nothing is admitted.
  unfoldable pub admit :
      Dict ℕ (List String) → (first : Bool) → (cost_so_far : ℕ) → List Entry → List Entry
  admit neighbors first so_far [] = []
  admit neighbors first so_far (e ∷ es) =
      let more = e ∷ admit neighbors false (so_far + cost neighbors e) es in
      if first
      then more
      else if ltb c.recall_token_budget (so_far + cost neighbors e)
      then []
      else more

  abbrev pub context_of : List ℕ → Action Error Session Context
  context_of [] s = pure (record { neighbor_keywords = []; edges = [] }) s
  context_of (i ∷ ids) s =
      let (answer, t) = ask (λ n. world.recall_context n (i ∷ ids)) s in (answer, t)

  unfoldable pub finalize : Action Error Session RecallResult
  unfolding admit classify
  finalize s =
      (context_of (ids_of (sorted_entries s)) >>= λ full.
      let top = admit full.neighbor_keywords true 0 (sorted_entries s) in
      let (covered, uncovered) =
        classify (ids_of top) (zip s.processed_stimuli s.per_stimulus_ids) in
      context_of (ids_of top) >>= λ selected. pure (record {
        nodes = map (render full.neighbor_keywords) top;
        edges = selected.edges;
        covered_stimuli = covered;
        uncovered_stimuli = uncovered;
      }))
        s
