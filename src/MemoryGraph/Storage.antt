-- ===== src/MemoryGraph/Storage.antt =====
-- engines/memory/_internal/gm/storage.py, the operations on nodes, with the edges that SQLite deletes
-- along with them, and `insert_edge_with_cycle_check` of tools/graph.py and gm/query.py. Nodes
-- stand in the order of their ids. Importance counts halves; embeddings, times and access
-- counts are left out.
mod Rows
pub mod Sound
pub mod Edges
pub mod Reports
unfoldable pub use Rows.*
use krakey_bot.Base.{
  ℕ, suc, ◌+◌, String, Bool, true, false, not, ◌&&◌, List, [], ◌∷◌, ◌++◌, Option, none, some, keep,
  length, elem, if◌then◌else◌, ltb, ◌==◌, string_eq, nat_eq, is_empty, map,
}
use krakey_bot.Base.Action.{Action, pure, throw, ◌>>=◌}
use krakey_bot.Base.Dict.{Dict, put}
use krakey_bot.Json.{Json}
use krakey_bot.MemoryGraph.{Edge, Report, normalized, add_row}

pub data Error : Type 0 where
  key_error integrity_error value_error : Error

-- The database: `next_id` is the counter of AUTOINCREMENT, and the edges stand the newest first.
pub record Graph : Type 0 where
  pub nodes : List Node
  pub next_id : ℕ
  pub edges : List Edge

-- The arguments of `insert_node`, and the dict of `upsert_node` with its defaults filled in, which has a
-- description, be it None, as all callers pass one.
pub record NewNode : Type 0 where
  pub name : String
  pub category : String
  pub description : Option String
  pub importance : ℕ
  pub source_type : String
  pub metadata : Dict String Json

unfoldable pub insert_node : NewNode → Action Error Graph ℕ
insert_node n g =
    if is_category n.category
    then pure g.next_id (record g {
      nodes =
          g.nodes
          ++ record {
            id = g.next_id;
            name = n.name;
            category = n.category;
            description = n.description;
            importance = n.importance;
            source_type = n.source_type;
            metadata = n.metadata;
          }
            ∷ [];
      next_id = suc g.next_id;
    })
    else throw integrity_error g

-- UPDATE of the rows that pass a test.
abbrev pub update_rows : (Node → Bool) → (Node → Node) → Graph → Graph
update_rows p f g = record g { nodes = rewrite p f g.nodes }

unfoldable pub upsert_node : NewNode → Action Error Graph ℕ
unfolding insert_node
upsert_node n g = elim (first (is_named n.name n.category) g.nodes) [
  | none ↦ insert_node n g
  | some row ↦ pure row.id (update_rows (has_id row.id) (refresh n.description) g)
]

unfoldable pub find_by_name : String → Graph → Option ℕ
find_by_name name g = elim (first (λ n. n.name == name) g.nodes) [
  | none ↦ none
  | some n ↦ some n.id
]

unfoldable pub set_metadata : ℕ → Dict String Json → Action Error Graph (Unit {0})
set_metadata id delta g = elim (first (has_id id) g.nodes) [
  | none ↦ throw key_error g
  | some row ↦
      pure tt (update_rows (has_id id) (λ n. record n { metadata = merge row.metadata delta }) g)
]

unfoldable pub set_node_fields : ℕ → Option String → Option ℕ → Action Error Graph Bool
set_node_fields id none none g = pure false g
set_node_fields id (some d) none g =
    pure (elem id (ids g.nodes))
      (update_rows (has_id id) (λ n. record n { description = some d }) g)
set_node_fields id none (some i) g =
    pure (elem id (ids g.nodes)) (update_rows (has_id id) (λ n. record n { importance = i }) g)
set_node_fields id (some d) (some i) g =
    pure (elem id (ids g.nodes))
      (update_rows (has_id id) (λ n. record n { description = some d; importance = i }) g)

-- The CHECK on the category is met by each row that is written, so not where there is none.
unfoldable pub update_node_category : String → String → Action Error Graph Bool
update_node_category name category g =
    if is_empty (keep (λ n. n.name == name) g.nodes)
    then pure false g
    else if is_category category
    then pure true (update_rows (λ n. n.name == name) (λ n. record n { category = category }) g)
    else throw integrity_error g

-- DELETE of the rows that pass a test; ON DELETE CASCADE takes the edges at them along.
unfoldable pub delete_rows : (Node → Bool) → Graph → Graph
delete_rows p g =
    let gone = ids (keep p g.nodes) in
    record g {
      nodes = keep (λ n. not (p n)) g.nodes;
      edges = keep (λ e. not (elem e.node_a gone) && not (elem e.node_b gone)) g.edges;
    }

unfoldable pub delete_node : ℕ → Action Error Graph (Unit {0})
unfolding delete_rows
delete_node id g = pure tt (delete_rows (has_id id) g)

unfoldable pub count_by_category : String → Graph → ℕ
count_by_category category g = length (keep (λ n. n.category == category) g.nodes)

unfoldable pub delete_by_category : String → Action Error Graph ℕ
unfolding delete_rows count_by_category
delete_by_category category g =
    pure (count_by_category category g) (delete_rows (λ n. n.category == category) g)

unfoldable pub insert_edge_with_cycle_check : ℕ → ℕ → String → Action Error Graph Report
unfolding add_row
insert_edge_with_cycle_check src tgt predicate g =
    if src == tgt
    then throw value_error g
    else let (report, edges) = add_row (ids g.nodes) g.edges (normalized src tgt predicate) in
      pure report (record g { edges = edges })
