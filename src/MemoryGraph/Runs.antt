-- ===== src/MemoryGraph/Runs.antt =====
-- What holds of Graph Memory after any operations on it.
use krakey_bot.Base.{
  ℕ, ◌<◌, ◌≡◌, refl, subst, String, Bool, true, List, [], ◌∷◌, ◌++◌, Option, elem, nat_eq, arith,
}
use krakey_bot.Base.Dict.{Dict}
use krakey_bot.Json.{Json}
use krakey_bot.MemoryGraph.{Edge}
use krakey_bot.MemoryGraph.Joined.{Joined}
use krakey_bot.MemoryGraph.Forest.{Forest, Forest-bridge}
use krakey_bot.MemoryGraph.Storage.{
  ids, Graph, NewNode, insert_node, upsert_node, set_metadata, set_node_fields,
  update_node_category, delete_node, delete_by_category, insert_edge_with_cycle_check,
}
use krakey_bot.MemoryGraph.Storage.Sound.{
  IsSound, valid_ends, insert_node-IsSound, upsert_node-IsSound, set_metadata-IsSound,
  set_node_fields-IsSound, update_node_category-IsSound,
}
use krakey_bot.MemoryGraph.Storage.Edges.{
  delete_node-IsSound, delete_by_category-IsSound, insert_edge_with_cycle_check-IsSound,
}
use krakey_bot.MemoryGraph.Writer.{ExtractedNode, ExtractedEdge}
use krakey_bot.MemoryGraph.Writer.Extraction.{remember_extraction}
use krakey_bot.MemoryGraph.Writer.Explicit.{explicit_write}
use krakey_bot.MemoryGraph.Writer.Pending.{Classification, Link, classify_and_link_pending}
use krakey_bot.MemoryGraph.Writer.Kept.{
  remember_extraction-IsSound, explicit_write-IsSound, classify_and_link_pending-IsSound,
}

-- A call that changes the database.
pub data Operation : Type 0 where
  insert upsert : NewNode → Operation
  metadata : ℕ → Dict String Json → Operation
  fields : ℕ → Option String → Option ℕ → Operation
  category : (name category : String) → Operation
  delete : ℕ → Operation
  delete_all : (category : String) → Operation
  edge : (src tgt : ℕ) → String → Operation
  extraction : List ExtractedNode → List ExtractedEdge → Operation
  explicit : (is_high : Bool) → List ExtractedNode → List ExtractedEdge → Operation
  pending : List Classification → List Link → Operation

-- The database after the call, whether it returns or raises.
unfoldable pub perform : Operation → Graph → Graph
unfolding insert_node upsert_node set_metadata set_node_fields update_node_category delete_node
    delete_by_category insert_edge_with_cycle_check remember_extraction explicit_write
    classify_and_link_pending
perform (insert n) g = (insert_node n g).1
perform (upsert n) g = (upsert_node n g).1
perform (metadata id delta) g = (set_metadata id delta g).1
perform (fields id d i) g = (set_node_fields id d i g).1
perform (category name c) g = (update_node_category name c g).1
perform (delete id) g = (delete_node id g).1
perform (delete_all c) g = (delete_by_category c g).1
perform (edge src tgt p) g = (insert_edge_with_cycle_check src tgt p g).1
perform (extraction ns es) g = (remember_extraction ns es g).1
perform (explicit high ns es) g = (explicit_write high ns es g).1
perform (pending cs es) g = (classify_and_link_pending cs es g).1

unfoldable pub perform_all : List Operation → Graph → Graph
unfolding perform
perform_all [] g = g
perform_all (o ∷ os) g = perform_all os (perform o g)

abbrev pub empty : Graph
empty = record { nodes = []; next_id = 1; edges = [] }

perform-IsSound : (o : Operation) (g : Graph) → IsSound g → IsSound (perform o g)
unfolding perform
perform-IsSound (insert n) g s = (insert_node-IsSound n).at g s
perform-IsSound (upsert n) g s = (upsert_node-IsSound n).at g s
perform-IsSound (metadata id delta) g s = (set_metadata-IsSound id delta).at g s
perform-IsSound (fields id d i) g s = (set_node_fields-IsSound id d i).at g s
perform-IsSound (category name c) g s = (update_node_category-IsSound name c).at g s
perform-IsSound (delete id) g s = (delete_node-IsSound id).at g s
perform-IsSound (delete_all c) g s = (delete_by_category-IsSound c).at g s
perform-IsSound (edge src tgt p) g s = (insert_edge_with_cycle_check-IsSound src tgt p).at g s
perform-IsSound (extraction ns es) g s = (remember_extraction-IsSound ns es).at g s
perform-IsSound (explicit high ns es) g s = (explicit_write-IsSound high ns es).at g s
perform-IsSound (pending cs es) g s = (classify_and_link_pending-IsSound cs es).at g s

pub perform_all-IsSound : (os : List Operation) (g : Graph) → IsSound g → IsSound (perform_all os g)
unfolding perform_all
perform_all-IsSound [] g s = s
perform_all-IsSound (o ∷ os) g s = perform_all-IsSound os (perform o g) (perform-IsSound o g s)

valid_ends-middle :
    (there : List ℕ) (newer older : List Edge) (e : Edge)
    → valid_ends there (newer ++ e ∷ older) ≡ true
    → (e.node_a < e.node_b) × (elem e.node_a there ≡ true) × (elem e.node_b there ≡ true)
valid_ends-middle there [] older e h = ground arith
valid_ends-middle there (d ∷ newer) older e h = valid_ends-middle there newer older e (ground arith)

-- Whatever calls are made on an empty Graph Memory, each edge that it then holds stands between two
-- nodes that are there, and is the only way from one to the other: without it the remaining
-- edges do not join its ends. So the graph has no cycle, not even of two edges between the same
-- two nodes.
pub perform_all-bridge :
    (os : List Operation) (newer older : List Edge) (e : Edge)
    → (perform_all os empty).edges ≡ newer ++ e ∷ older
    → (¬ Joined (newer ++ older) e.node_b e.node_a)
      × (e.node_a < e.node_b)
      × (elem e.node_a (ids (perform_all os empty).nodes) ≡ true)
      × (elem e.node_b (ids (perform_all os empty).nodes) ≡ true)
perform_all-bridge os newer older e h =
    let s =
      perform_all-IsSound os empty
        (record { fresh = refl; distinct = tt; categories = refl; ends = refl; forest = tt }) in
    let (a, b, c) =
      valid_ends-middle (ids (perform_all os empty).nodes) newer older e
        (subst (λ es. valid_ends (ids (perform_all os empty).nodes) es ≡ true) h s.ends) in
    (Forest-bridge newer older e (subst Forest h s.forest), a, b, c)
