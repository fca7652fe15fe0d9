-- ===== src/Sleep.antt =====
-- engines/memory/_internal/sleep/migration.py: nodes of Graph Memory become entries of knowledge
-- bases. With it the parts of knowledge_base and of kb_lifecycle.py that it calls. The tables are
-- those of one database, and a knowledge base is known by its id. Similarities are known by
-- their rank, and importance counts halves.
mod Bases
pub mod Revived
pub mod Grown
pub mod Entered
pub mod Passes
pub mod Chosen
pub mod Moved
pub mod Cycle
pub mod Consolidate
unfoldable pub use Bases.*
use krakey_bot.Base.{
  ℕ, zero, suc, ◌+◌, String, Bool, true, false, not, ◌&&◌, ◌||◌, List, [], ◌∷◌, ◌++◌, Option, none,
  some, keep, elem, any, if◌then◌else◌, ltb, leb, ◌==◌, string_eq, nat_eq, length,
}
use krakey_bot.Base.Text.{decimal, concat}
use krakey_bot.Base.Action.{
  Action, Outcome, returned, raised, pure, throw, gets, modify, ◌>>=◌, ◌>>◌,
}
use krakey_bot.Base.Dict.{Dict, get, put, has, pop, keys}
use krakey_bot.MemoryGraph.{Edge}
use krakey_bot.MemoryGraph.Storage.{Node, Graph, has_id, delete_rows}

-- What the search for similar active entries, the reranker and the model answer for a node: the entries
-- that are asked about, and the index of the one that is picked.
pub record World : Type 0 where
  pub similarity : (community : ℕ) → (kb_id : String) → ℕ
  pub has_summary : (community : ℕ) → Bool
  pub candidates : Node → List Entry → Outcome Error (List Entry)
  pub pick_same : Node → List Entry → Option ℕ

-- `members` is gm_node_communities in the order of the communities.
pub record Tables : Type 0 where
  pub graph : Graph
  pub members : Dict ℕ ℕ
  pub bases : Dict String Base

-- The counters and dicts of a migration, and the knowledge bases that it changes.
pub record Progress : Type 0 where
  pub bases : Dict String Base
  pub community_kbs : Dict ℕ String
  pub gm_to_kb_entry : Dict ℕ (ℕ × ℕ)
  pub migrated_nodes : ℕ
  pub merged_entries : ℕ
  pub migrated_edges : ℕ
  pub skipped_no_community : ℕ
  pub skipped_small_community : ℕ
  pub kbs_created : ℕ
  pub kbs_revived : ℕ

-- The rows of the nodes that are there, one for each: the first one counts.
abbrev pub node_to_community : Dict ℕ ℕ → Dict ℕ ℕ
node_to_community [] = []
node_to_community ((n, c) ∷ rows) = (n, c) ∷ pop n (node_to_community rows)

abbrev pub count_of : ℕ → Dict ℕ ℕ → ℕ
count_of c [] = 0
count_of c ((n, d) ∷ rows) = (if d == c then 1 else 0) + count_of c rows

abbrev pub is_migratable : Node → Bool
is_migratable n = n.category == "FACT" || (n.category == "RELATION" || n.category == "KNOWLEDGE")

-- `node.get("description") or node["name"]`
abbrev pub content_of : Node → String
content_of n = elim n.description [ none ↦ n.name | some d ↦ if d == "" then n.name else d ]

abbrev pub nth : List Entry → ℕ → Option Entry
nth [] i = none
nth (x ∷ xs) zero = some x
nth (x ∷ xs) (suc i) = nth xs i

abbrev pub base_of : String → Dict String Base → Base
base_of kb_id kbs = elim (get kb_id kbs) [ none ↦ empty_base | some b ↦ b ]

abbrev pub change_base : String → Base → Progress → Progress
change_base kb_id b p = record p { bases = put kb_id b p.bases }

abbrev pub tags_of : Node → List String
tags_of n = n.category ∷ n.name ∷ []

unfoldable pub write_fresh : String → Node → Action Error Progress (ℕ × Bool)
unfolding write_entry
write_fresh kb_id n p =
    let (entry_id, b) =
      write_entry (content_of n) (concat ("gm_node:" ∷ decimal n.id ∷ [])) (tags_of n) n.importance
        (base_of kb_id p.bases) in
    pure (entry_id, false) (change_base kb_id b p)

unfoldable pub merge_into : String → Node → Entry → Action Error Progress (ℕ × Bool)
unfolding merge_entry
merge_into kb_id n e p =
    elim (merge_entry e.id (content_of n) n.importance (tags_of n) (base_of kb_id p.bases)) [
      | raised x ↦ throw x p
      | returned b ↦ pure (e.id, true) (change_base kb_id b p)
    ]

-- The dict and the counters after an entry.
abbrev pub placed : Node → ℕ → ℕ × Bool → Progress → Progress
placed n community (entry_id, merged) p = record p {
  gm_to_kb_entry = put n.id (community, entry_id) p.gm_to_kb_entry;
  migrated_nodes = suc p.migrated_nodes;
  merged_entries = if merged then suc p.merged_entries else p.merged_entries;
}

-- One row of `_migrate_edges`.
unfoldable pub move_edge : Edge → Progress → Progress
unfolding write_edge
move_edge e p = elim (get e.node_a p.gm_to_kb_entry) [
  | none ↦ p
  | some (ca, ea) ↦ elim (get e.node_b p.gm_to_kb_entry) [
    | none ↦ p
    | some (cb, eb) ↦ if not (ca == cb) || ea == eb then p else elim (get ca p.community_kbs) [
      | none ↦ p
      | some kb_id ↦
          let (written, b) = write_edge ea eb e.predicate (base_of kb_id p.bases) in
          record (change_base kb_id b p) {
            migrated_edges = if written then suc p.migrated_edges else p.migrated_edges;
          }
    ]
  ]
]

unfoldable pub move_edges : List Edge → Progress → Progress
unfolding move_edge
move_edges [] p = p
move_edges (e ∷ es) p = move_edges es (move_edge e p)

abbrev pub delete_nodes : List ℕ → Graph → Graph
unfolding delete_rows
delete_nodes [] g = g
delete_nodes (id ∷ l) g = delete_nodes l (delete_rows (has_id id) g)

abbrev pub start : Dict String Base → Progress
start kbs = record {
  bases = kbs;
  community_kbs = [];
  gm_to_kb_entry = [];
  migrated_nodes = 0;
  merged_entries = 0;
  migrated_edges = 0;
  skipped_no_community = 0;
  skipped_small_community = 0;
  kbs_created = 0;
  kbs_revived = 0;
}

module _ (world : World) (threshold : ℕ) where
  -- The loop of `find_revive_target`, from the best id and similarity so far.
  unfoldable pub best_of : ℕ → Dict String Base → Option String → ℕ → Option String
  best_of community [] best_id best_sim = best_id
  best_of community ((kb_id, b) ∷ kbs) best_id best_sim =
      let sim = world.similarity community kb_id in
      let better = best_of community kbs (some kb_id) sim in
      let rest = best_of community kbs best_id best_sim in
      if b.is_archived && (b.has_index && leb best_sim sim) then better else rest

  unfoldable pub find_revive_target : ℕ → Dict String Base → Option String
  unfolding best_of
  find_revive_target community kbs =
      if world.has_summary community then best_of community kbs none threshold else none

  -- `_find_or_create_kb_for_community`, with the counters of its caller.
  unfoldable pub find_or_create : ℕ → Action Error Progress String
  unfolding find_revive_target
  find_or_create community p = elim (find_revive_target community p.bases) [
    | some kb_id ↦ pure kb_id (record p {
      bases = put kb_id (record (base_of kb_id p.bases) { is_archived = false }) p.bases;
      community_kbs = put community kb_id p.community_kbs;
      kbs_revived = suc p.kbs_revived;
    })
    | none ↦
        let kb_id = concat ("community_" ∷ decimal community ∷ []) in
        if has kb_id p.bases
        then pure kb_id (record p { community_kbs = put community kb_id p.community_kbs })
        else pure kb_id (record p {
          bases = put kb_id empty_base p.bases;
          community_kbs = put community kb_id p.community_kbs;
          kbs_created = suc p.kbs_created;
        })
  ]

  unfoldable pub kb_for : ℕ → Action Error Progress String
  unfolding find_or_create
  kb_for community p = elim (get community p.community_kbs) [
    | some kb_id ↦ pure kb_id p
    | none ↦ find_or_create community p
  ]

  unfoldable pub dedup_or_write : String → Node → Action Error Progress (ℕ × Bool)
  unfolding write_fresh merge_into
  dedup_or_write kb_id n p = elim (world.candidates n (base_of kb_id p.bases).entries) [
    | raised x ↦ throw x p
    | returned ordered ↦ elim (world.pick_same n ordered) [
      | none ↦ write_fresh kb_id n p
      | some i ↦ elim (nth ordered i) [
        | none ↦ write_fresh kb_id n p
        | some e ↦ merge_into kb_id n e p
      ]
    ]
  ]

  module _ (min_community_size : ℕ) (communities : Dict ℕ ℕ) where
    -- One round of the first pass.
    unfoldable pub place_node : Node → Action Error Progress (Unit {0})
    unfolding kb_for dedup_or_write
    place_node n = elim (get n.id communities) [
      | none ↦ modify (λ p. record p { skipped_no_community = suc p.skipped_no_community })
      | some c ↦
          if ltb (count_of c communities) min_community_size
          then modify (λ p. record p { skipped_small_community = suc p.skipped_small_community })
          else do kb_id ← kb_for c; r ← dedup_or_write kb_id n; modify (placed n c r)
    ]

    unfoldable pub place_all : List Node → Action Error Progress (Unit {0})
    unfolding place_node
    place_all [] = pure tt
    place_all (n ∷ ns) = do _ ← place_node n; place_all ns

  -- ON DELETE CASCADE also takes the deleted nodes out of gm_node_communities.
  unfoldable pub migrate_gm_to_kb : (min_community_size : ℕ) → Action Error Tables Progress
  unfolding place_all move_edges
  migrate_gm_to_kb min_community_size t =
      let communities = node_to_community t.members in
      let (o, p) =
        place_all min_community_size communities (keep is_migratable t.graph.nodes)
          (start t.bases) in
      elim o [
        | raised x ↦ throw x (record t { bases = p.bases })
        | returned u ↦
            let q = move_edges t.graph.edges p in
            let gone = keys q.gm_to_kb_entry in
            pure q (record {
              graph = delete_nodes gone t.graph;
              members = keep (λ r. not (elem r.0 gone)) t.members;
              bases = q.bases;
            })
      ]
