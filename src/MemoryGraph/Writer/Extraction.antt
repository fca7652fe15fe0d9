-- ===== src/MemoryGraph/Writer/Extraction.antt =====
-- `remember_extraction` of engines/memory/_internal/graph_memory.py.
use krakey_bot.Base.{
  ℕ, suc, String, ◌||◌, List, [], ◌∷◌, Option, none, some, if◌then◌else◌, ◌==◌, string_eq, nat_eq,
}
use krakey_bot.Base.Action.{Action, pure, attempt, ◌>>=◌}
use krakey_bot.Base.Dict.{Dict, put}
use krakey_bot.MemoryGraph.Storage.{Error, Graph, upsert_node, insert_edge_with_cycle_check}
use krakey_bot.MemoryGraph.Writer.{ExtractedNode, ExtractedEdge, default, resolve}

-- `name_to_id` and `nodes_written`.
abbrev pub Written : Type 0
Written = Dict String ℕ × ℕ

unfoldable pub write_node : ExtractedNode → Written → Action Error Graph Written
unfolding upsert_node
write_node n (name_to_id, written) =
    let name = default "" n.name in
    let category = default "" n.category in
    if name == "" || category == ""
    then pure (name_to_id, written)
    else attempt
        (do
          id ← upsert_node (record {
            name = name;
            category = category;
            description = some (default "" n.description);
            importance = 2;
            source_type = default "compact" n.source_type;
            metadata = [];
          })
          pure (put name id name_to_id, suc written))
        (λ _. pure (name_to_id, written))

unfoldable pub write_nodes : List ExtractedNode → Written → Action Error Graph Written
unfolding write_node
write_nodes [] w = pure w
write_nodes (n ∷ ns) w = do w' ← write_node n w; write_nodes ns w'

-- The edge between two nodes that were found, counted also where the insertion skips it.
unfoldable pub link : Option ℕ → Option ℕ → String → ℕ → Action Error Graph ℕ
unfolding insert_edge_with_cycle_check
link (some src) (some tgt) predicate written =
    if src == tgt
    then pure written
    else attempt (do _ ← insert_edge_with_cycle_check src tgt predicate; pure (suc written))
        (λ _. pure written)
link (some src) none predicate written = pure written
link none tgt predicate written = pure written

unfoldable pub write_edge : Dict String ℕ → ExtractedEdge → ℕ → Action Error Graph ℕ
unfolding link resolve
write_edge name_to_id e written g =
    let source = default "" e.source_name in
    let target = default "" e.target_name in
    if source == "" || target == ""
    then pure written g
    else link (resolve name_to_id g source) (resolve name_to_id g target) (default "" e.predicate)
        written g

unfoldable pub write_edges : Dict String ℕ → List ExtractedEdge → ℕ → Action Error Graph ℕ
unfolding write_edge
write_edges name_to_id [] written = pure written
write_edges name_to_id (e ∷ es) written = do
  more ← write_edge name_to_id e written
  write_edges name_to_id es more

-- The pair of `nodes_written` and `edges_written`.
unfoldable pub remember_extraction :
    List ExtractedNode → List ExtractedEdge → Action Error Graph (ℕ × ℕ)
unfolding write_nodes write_edges
remember_extraction nodes edges = do
  w ← write_nodes nodes ([], 0)
  edges_written ← write_edges w.0 edges 0
  pure (w.1, edges_written)
