-- ===== src/Tests/Sleeps.antt =====
-- Runs of the migration to knowledge bases.
use krakey_bot.Base.{
  length, ◌+◌, ◌<◌, some, List, ℕ, ◌≡◌, ◌⊎◌, refl, String, true, [], ◌∷◌, none, any, arith,
}
use krakey_bot.Base.Action.{returned, raised}
use krakey_bot.Base.Text.{decimal}
use krakey_bot.Base.Dict.{Dict}
use krakey_bot.MemoryGraph.Storage.{Node, delete_rows}
use krakey_bot.Sleep.{
  Base, empty_base, World, Tables, find_revive_target, best_of, migrate_gm_to_kb, place_all,
  place_node, kb_for, find_or_create, dedup_or_write, write_fresh, write_entry, move_edges,
  move_edge, write_edge,
}
use krakey_bot.Sleep.Revived.{is_near, chose_near, find_revive_target_lem}
use krakey_bot.Stimuli.Buffer.{push}
use krakey_bot.Sleep.Cycle.{
  sleep_start, sleep_done, sleep_failed, init, request_sleep, maybe_auto_sleep, hear, end_request,
  Turn, trigger, stores, ends, turn, run,
}
use krakey_bot.Sleep.Cycle.Coalesced.{IsReported, run-init-IsReported}
use krakey_bot.Base.Sort.Descending.{sort_down, insert_down}
use krakey_bot.Sleep.Consolidate
use krakey_bot.Sleep.Consolidate.{
  move_entries, gather, index_all, consolidate_loop, consolidate_kbs,
}
use krakey_bot.Sleep.Consolidate.Counts.{count_all}
use krakey_bot.Sleep.Consolidate.Tried.{spread}
use krakey_bot.Sleep.Consolidate.Conserved.{by_importance, consolidate_kbs_lem}

abbrev world : World
world = record {
  similarity = λ c k. 8;
  has_summary = λ c. true;
  candidates = λ n es. returned [];
  pick_same = λ n es. none;
}

abbrev archived : Dict String Base
archived = ("old", record empty_base { is_archived = true; has_index = true }) ∷ []

find_revive_target_lem_example :
    chose_near world 6 4 7 (find_revive_target world 6 4 archived)
    ≡ any (is_near world 6 4 7) archived
find_revive_target_lem_example = find_revive_target_lem world 6 4 7 archived refl (omega arith)

abbrev node : ℕ → String → Node
node id category = record {
  id = id;
  name = "n";
  category = category;
  description = none;
  importance = 2;
  source_type = "auto";
  metadata = [];
}

-- Nodes 1 and 2 are a community of two, and 3 is the goal that stays.
abbrev tables : Tables
tables = record {
  graph = record {
    nodes = node 1 "FACT" ∷ node 2 "KNOWLEDGE" ∷ node 3 "TARGET" ∷ [];
    next_id = 4;
    edges = record { node_a = 1; node_b = 2; predicate = "SERVES" } ∷ [];
  };
  members = (1, 7) ∷ (2, 7) ∷ (3, 7) ∷ [];
  bases = [];
}

left : (migrate_gm_to_kb world 6 2 tables).1.graph.nodes ≡ node 3 "TARGET" ∷ []
unfolding migrate_gm_to_kb place_all place_node kb_for find_or_create find_revive_target best_of
    dedup_or_write write_fresh write_entry move_edges move_edge write_edge delete_rows decimal
left = refl

-- The write finds the sleep of the runtime in flight, the second sleep fails.
abbrev turns : List Turn
turns =
    trigger "fatigue"
    ∷ stores 9
    ∷ ends (record { ident = 1; now = 5 }) 0 (returned tt)
    ∷ trigger "again"
    ∷ ends (record { ident = 2; now = 6 }) 0 (raised "disk full")
    ∷ []

run-init-IsReported_example : IsReported (run true 5 turns init)
run-init-IsReported_example = run-init-IsReported true 5 turns

reported :
    ((run true 5 turns init).sleep_cycles ≡ 1)
    × ((run true 5 turns init).events
        ≡ sleep_start "fatigue" ∷ sleep_done ∷ sleep_failed "again" "disk full" ∷ [])
unfolding run turn request_sleep maybe_auto_sleep end_request hear push
reported = (refl, refl)

abbrev vectors : Consolidate.World
vectors = record {
  index_embedding = λ b. some 1;
  importance = λ b. 2;
  cosine_similarity = λ v w. 9;
}

abbrev entry : String → Base
entry content = record empty_base {
  entries =
      record {
        id = 1;
        content = content;
        source = "gm_node:1";
        tags = [];
        importance = 2;
        is_active = true;
      }
      ∷ [];
  next_id = 2;
}

abbrev bases : Dict String Base
bases = ("a", entry "rain") ∷ ("b", entry "rain") ∷ ("c", entry "sun") ∷ []

consolidate_kbs_lem_example :
    let (remaining, merged, after) = consolidate_kbs vectors 8 bases in
    let info = gather vectors 8 bases in
    (count_all "rain" after ≡ count_all "rain" bases)
    × (length remaining + merged ≡ length info)
    × ((0 < merged) ⊎ (spread vectors 8 [] (sort_down by_importance info) ≡ true))
consolidate_kbs_lem_example = consolidate_kbs_lem vectors 8 "rain" bases (refl, (refl, (refl, tt)))

merged : (consolidate_kbs vectors 8 bases).1 ≡ 2
unfolding consolidate_kbs consolidate_loop gather index_all sort_down insert_down move_entries
    write_entry
merged = refl
