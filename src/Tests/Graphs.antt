-- ===== src/Tests/Graphs.antt =====
-- Runs of the memory graph.
use krakey_bot.Base.{
  ℕ, ◌≡◌, ◌↔◌, ◌⊎◌, ◌<◌, refl, String, true, false, ◌&&◌, List, [], ◌∷◌, ◌++◌, none, some, elem,
  nat_eq, arith,
}
use krakey_bot.Base.Action.{returned}
use krakey_bot.MemoryGraph.{Edge, inserted, skipped, would_create_cycle, walks, normalized, add_row}
use krakey_bot.MemoryGraph.Joined.{Joined}
use krakey_bot.MemoryGraph.Search.{would_create_cycle_lem}
use krakey_bot.MemoryGraph.Storage.{
  Graph, NewNode, ids, is_category, insert_node, insert_edge_with_cycle_check,
}
use krakey_bot.MemoryGraph.Storage.Reports.{insert_edge-reports}
use krakey_bot.MemoryGraph.Writer.{ExtractedNode, ExtractedEdge}
use krakey_bot.MemoryGraph.Writer.Extraction.{remember_extraction}
use krakey_bot.MemoryGraph.Writer.Counts.{Extracted, remember_extraction-returns}
use krakey_bot.MemoryGraph.Runs.{
  Operation, insert, edge, perform, perform_all, empty, perform_all-bridge,
}

abbrev link : ℕ → ℕ → Edge
link a b = record { node_a = a; node_b = b; predicate = "RELATED_TO" }

abbrev chain : List Edge
chain = link 1 2 ∷ link 2 3 ∷ link 4 5 ∷ []

would_create_cycle_lem_example : (would_create_cycle chain 3 1 ≡ true) ↔ Joined chain 3 1
would_create_cycle_lem_example = would_create_cycle_lem chain 1 3

cycles : (would_create_cycle chain 3 1 ≡ true) × (would_create_cycle chain 5 1 ≡ false)
unfolding would_create_cycle walks
cycles = (refl, refl)

abbrev fact : String → NewNode
fact name = record {
  name = name;
  category = "FACT";
  description = none;
  importance = 2;
  source_type = "auto";
  metadata = [];
}

-- The third edge is refused, since the first two join its ends.
abbrev calls : List Operation
calls =
    insert (fact "a")
    ∷ insert (fact "b")
    ∷ insert (fact "c")
    ∷ edge 2 1 "RELATED_TO"
    ∷ edge 2 3 "RELATED_TO"
    ∷ edge 1 3 "RELATED_TO"
    ∷ []

stored : (perform_all calls empty).edges ≡ link 2 3 ∷ link 1 2 ∷ []
unfolding perform_all perform insert_node is_category insert_edge_with_cycle_check add_row
    would_create_cycle walks
stored = refl

perform_all-bridge_example :
    (¬ Joined (link 2 3 ∷ [] ++ []) 2 1)
    × (1 < 2)
    × (elem 1 (ids (perform_all calls empty).nodes) ≡ true)
    × (elem 2 (ids (perform_all calls empty).nodes) ≡ true)
perform_all-bridge_example = perform_all-bridge calls (link 2 3 ∷ []) [] (link 1 2) stored

abbrev graph : Graph
graph = record { nodes = []; next_id = 1; edges = chain }

insert_edge-reports_example :
    (Joined chain 1 3
      × (insert_edge_with_cycle_check 3 1 "CAUSES" graph
          ≡ (returned (skipped "would create cycle"), graph)))
    ⊎ (((¬ Joined chain 1 3)
          × ((elem 3 (ids graph.nodes) && elem 1 (ids graph.nodes)) ≡ true)
          × (insert_edge_with_cycle_check 3 1 "CAUSES" graph
              ≡ (returned inserted, record graph { edges = normalized 3 1 "CAUSES" ∷ chain })))
        ⊎ ((¬ Joined chain 1 3)
            × ((elem 3 (ids graph.nodes) && elem 1 (ids graph.nodes)) ≡ false)
            × (insert_edge_with_cycle_check 3 1 "CAUSES" graph
                ≡ (returned (skipped "duplicate edge"), graph))))
insert_edge-reports_example = insert_edge-reports graph 3 1 "CAUSES" (omega arith)

abbrev extracted : List ExtractedNode
extracted =
    record { name = some "a"; category = some "FACT"; description = none; source_type = none }
    ∷ record { name = some "b"; category = some "THING"; description = none; source_type = none }
    ∷ record { name = some "c"; category = some "TARGET"; description = none; source_type = none }
    ∷ []

abbrev relations : List ExtractedEdge
relations =
    record { source_name = some "a"; target_name = some "b"; predicate = none }
    ∷ record { source_name = some "c"; target_name = some "a"; predicate = some "SERVES" }
    ∷ record { source_name = some "a"; target_name = none; predicate = none }
    ∷ []

remember_extraction-returns_example :
    (nodes_written : ℕ) × (edges_written : ℕ) × ((remember_extraction extracted relations empty).0
      ≡ returned (nodes_written, edges_written))
    × Extracted extracted relations empty
        (remember_extraction extracted relations empty).1
        nodes_written
        edges_written
remember_extraction-returns_example = remember_extraction-returns extracted relations empty
