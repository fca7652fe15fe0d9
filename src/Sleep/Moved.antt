-- ===== src/Sleep/Moved.antt =====
-- A whole migration: the nodes that leave Graph Memory, and where they are afterwards.
use krakey_bot.Base.{
  ℕ, ◌+◌, ◌≤◌, ◌≡◌, ◌⊎◌, String, Bool, true, false, not, some, any, keep, length, string_eq, nat_eq,
}
use krakey_bot.Base.Dict.{Dict, get}
use krakey_bot.Sleep.{
  Base, has_entry, World, Tables, Progress, node_to_community, is_migratable, base_of,
}
use krakey_bot.Sleep.Chosen.{IsBaseOf, Chosen}
use krakey_bot.Sleep.Passes.{leaves}

-- Some node with the id is to move.
abbrev pub goes : ℕ → Tables → ℕ → Bool
goes least t id =
    any (leaves least (node_to_community t.members) id) (keep is_migratable t.graph.nodes)

-- The entry in which a node is found: it stands in the knowledge base of the community that `members`
-- gives the node.
pub record Place (world : World) (threshold : ℕ) (members : Dict ℕ ℕ) (q : Progress) (t : Tables)
    (id : ℕ) : Type 0 where
  pub community : ℕ
  pub belongs : get id (node_to_community members) ≡ some community
  pub entry_id : ℕ
  pub kb_id : String
  pub recorded : get id q.gm_to_kb_entry ≡ some (community, entry_id)
  pub chosen : IsBaseOf world threshold community kb_id
  pub based : get community q.community_kbs ≡ some kb_id
  pub there : has_entry entry_id (base_of kb_id t.bases).entries ≡ true

pub record Migrated (world : World) (threshold least : ℕ) (t : Tables) (q : Progress) (t' : Tables)
    : Type 0 where
  pub nodes : t'.graph.nodes ≡ keep (λ n. not (goes least t n.id)) t.graph.nodes
  pub counts :
      q.migrated_nodes + (q.skipped_no_community + q.skipped_small_community)
      ≡ length (keep is_migratable t.graph.nodes)
  pub merges : q.merged_entries ≤ q.migrated_nodes
  pub places : (id : ℕ) → (goes least t id ≡ false) ⊎ Place world threshold t.members q t' id
