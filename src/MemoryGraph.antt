-- ===== src/MemoryGraph.antt =====
-- engines/memory/_internal/tools/graph.py: `would_create_cycle` and `insert_edge_with_cycle_check`,
-- over the rows of an edges table, the newest first. Ids are natural numbers. The recursive query
-- is a search of the walks that visit no node twice; its text of visited ids is a list.
pub mod Joined
pub mod Search
pub mod Forest
pub mod Storage
pub mod Writer
pub mod Runs
use krakey_bot.Base.{
  ℕ, zero, suc, ◌+◌, String, Bool, true, false, not, ◌&&◌, ◌||◌, List, [], ◌∷◌, Option, none, some,
  any, elem, length, if◌then◌else◌, ltb, ◌==◌, string_eq, nat_eq,
}

pub record Edge : Type 0 where
  pub node_a : ℕ
  pub node_b : ℕ
  pub predicate : String

-- The other end of a row that the join meets.
abbrev pub other_end : ℕ → Edge → Option ℕ
other_end nid e =
    if e.node_a == nid then some e.node_b else if e.node_b == nid then some e.node_a else none

abbrev pub unless_visited : (ℕ → List ℕ → Bool) → List ℕ → Option ℕ → Bool
unless_visited go visited none = false
unless_visited go visited (some w) = if elem w visited then false else go w (w ∷ visited)

module _ (edges : List Edge) (b : ℕ) where
  -- Whether a walk from `nid` that avoids `visited` comes to `b`.
  unfoldable pub walks : ℕ → ℕ → List ℕ → Bool
  walks zero nid visited = false
  walks (suc fuel) nid visited = elim (nid == b) [
    | true ↦ true
    | false ↦ any (λ e. unless_visited (walks fuel) visited (other_end nid e)) edges
  ]

  unfoldable pub would_create_cycle : ℕ → Bool
  unfolding walks
  would_create_cycle a =
      if a == b then true else walks (suc (length edges + length edges)) a (a ∷ [])

-- What the insertion says: `skipped` is true with a reason.
pub data Report : Type 0 where
  inserted : Report
  skipped : (reason : String) → Report

abbrev pub is_same_row : Edge → Edge → Bool
is_same_row e f = e.node_a == f.node_a && (e.node_b == f.node_b && e.predicate == f.predicate)

-- The constraints of the table: CHECK, the two REFERENCES, and UNIQUE.
abbrev pub is_allowed : List ℕ → List Edge → Edge → Bool
is_allowed ids edges e =
    ltb e.node_a e.node_b
    && (elem e.node_a ids && (elem e.node_b ids && not (any (is_same_row e) edges)))

abbrev pub normalized : ℕ → ℕ → String → Edge
normalized src tgt predicate =
    if ltb src tgt
    then record { node_a = src; node_b = tgt; predicate = predicate }
    else record { node_a = tgt; node_b = src; predicate = predicate }

unfoldable pub add_row : List ℕ → List Edge → Edge → Report × List Edge
unfolding would_create_cycle
add_row ids edges e =
    if would_create_cycle edges e.node_b e.node_a
    then (skipped "would create cycle", edges)
    else if is_allowed ids edges e
    then (inserted, e ∷ edges)
    else (skipped "duplicate edge", edges)
