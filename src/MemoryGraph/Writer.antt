-- ===== src/MemoryGraph/Writer.antt =====
-- What is written to Graph Memory once a model has answered: `remember_extraction` of
-- engines/memory/_internal/graph_memory.py, and `explicit_write` and `classify_and_link_pending` of
-- writer.py from the parsed answer on. Names, categories and predicates that are there are texts,
-- and ids are natural numbers.
pub mod Extraction
pub mod Explicit
pub mod Pending
pub mod Kept
pub mod Rows
pub mod Nodes
pub mod Ends
pub mod Counts
use krakey_bot.Base.{
  ℕ, suc, ◌+◌, String, Bool, true, false, ◌||◌, List, [], ◌∷◌, Option, none, some, if◌then◌else◌,
  ◌==◌, string_eq, nat_eq,
}
use krakey_bot.Base.Action.{Action, pure, throw, attempt, ◌>>=◌, ◌>>◌}
use krakey_bot.Base.Dict.{Dict, get, put, values}
use krakey_bot.Json.{Json, bool}
use krakey_bot.MemoryGraph.{Report}
use krakey_bot.MemoryGraph.Storage.{
  Node, is_category, has_id, merge, Error, key_error, integrity_error, Graph, NewNode, update_rows,
  upsert_node, set_metadata, find_by_name, first, insert_edge_with_cycle_check,
}

-- The keys of a node's and an edge's dict; a key may be missing.
pub record ExtractedNode : Type 0 where
  pub name : Option String
  pub category : Option String
  pub description : Option String
  pub source_type : Option String

pub record ExtractedEdge : Type 0 where
  pub source_name : Option String
  pub target_name : Option String
  pub predicate : Option String

abbrev pub default : String → Option String → String
default d none = d
default d (some s) = s

-- name_to_id.get(name), else `find_by_name`
unfoldable pub resolve : Dict String ℕ → Graph → String → Option ℕ
unfolding find_by_name
resolve name_to_id g name = elim (get name name_to_id) [
  | some id ↦ some id
  | none ↦ find_by_name name g
]
