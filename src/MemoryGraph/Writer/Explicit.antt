-- ===== src/MemoryGraph/Writer/Explicit.antt =====
-- `explicit_write` of engines/memory/_internal/writer.py, from the parsed answer on.
use krakey_bot.Base.{
  ℕ, String, Bool, true, List, [], ◌∷◌, Option, none, some, if◌then◌else◌, ◌==◌, string_eq, nat_eq,
}
use krakey_bot.Base.Action.{Action, pure, throw, ◌>>=◌}
use krakey_bot.Base.Dict.{Dict, put, values}
use krakey_bot.Json.{Json, bool}
use krakey_bot.MemoryGraph.Storage.{
  Error, Graph, find_by_name, upsert_node, set_metadata, insert_edge_with_cycle_check,
}
use krakey_bot.MemoryGraph.Writer.{ExtractedNode, ExtractedEdge, default, resolve}

abbrev pub classified : Dict String Json
classified = ("classified", bool true) ∷ []

-- `n["name"]` and `n["category"]` raise a KeyError.
unfoldable pub write_node : ℕ → ExtractedNode → Dict String ℕ → Action Error Graph (Dict String ℕ)
unfolding upsert_node set_metadata
write_node importance n ids = elim n.name [
  | none ↦ throw Error.key_error
  | some name ↦ elim n.category [
    | none ↦ throw Error.key_error
    | some category ↦ do
      id ← upsert_node (record {
        name = name;
        category = category;
        description = some (default "" n.description);
        importance = importance;
        source_type = "explicit";
        metadata = classified;
      })
      _ ← set_metadata id classified
      pure (put name id ids)
  ]
]

unfoldable pub write_nodes :
    ℕ → List ExtractedNode → Dict String ℕ → Action Error Graph (Dict String ℕ)
unfolding write_node
write_nodes importance [] ids = pure ids
write_nodes importance (n ∷ ns) ids = do
  more ← write_node importance n ids
  write_nodes importance ns more

unfoldable pub link : Option ℕ → Option ℕ → Option String → Action Error Graph (Unit {0})
unfolding insert_edge_with_cycle_check
link (some src) (some tgt) predicate = if src == tgt then pure tt else elim predicate [
  | none ↦ throw Error.key_error
  | some p ↦ do _ ← insert_edge_with_cycle_check src tgt p; pure tt
]
link (some src) none predicate = pure tt
link none tgt predicate = pure tt

-- A missing name is looked up as the empty one, in the database only.
unfoldable pub endpoint : Dict String ℕ → Graph → Option String → Option ℕ
unfolding resolve find_by_name
endpoint ids g none = find_by_name "" g
endpoint ids g (some name) = resolve ids g name

unfoldable pub write_edges : Dict String ℕ → List ExtractedEdge → Action Error Graph (Unit {0})
unfolding link endpoint
write_edges ids [] = pure tt
write_edges ids (e ∷ es) = do
  _ ← λ g. link (endpoint ids g e.source_name) (endpoint ids g e.target_name) e.predicate g
  write_edges ids es

unfoldable pub explicit_write :
    (is_high : Bool) → List ExtractedNode → List ExtractedEdge → Action Error Graph (List ℕ)
unfolding write_nodes write_edges
explicit_write is_high nodes edges = do
  ids ← write_nodes (if is_high then 4 else 2) nodes []
  _ ← write_edges ids edges
  pure (values ids)
