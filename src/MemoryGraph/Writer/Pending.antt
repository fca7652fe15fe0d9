-- ===== src/MemoryGraph/Writer/Pending.antt =====
-- `classify_and_link_pending` of engines/memory/_internal/writer.py, from the parsed answer on.
use krakey_bot.Base.{
  ℕ, suc, String, true, List, [], ◌∷◌, Option, none, some, if◌then◌else◌, ◌==◌, string_eq, nat_eq,
}
use krakey_bot.Base.Action.{Action, pure, throw, attempt, ◌>>=◌}
use krakey_bot.Base.Dict.{put}
use krakey_bot.Json.{bool}
use krakey_bot.MemoryGraph.Storage.{
  is_category, has_id, Error, Graph, update_rows, first, insert_edge_with_cycle_check,
}

pub record Classification : Type 0 where
  pub node_id : Option ℕ
  pub category : Option String

pub record Link : Type 0 where
  pub source_id : Option ℕ
  pub target_id : Option ℕ
  pub predicate : Option String

-- UPDATE of the row, if there is one, under the CHECK on its category.
unfoldable pub assign : ℕ → String → Action Error Graph (Unit {0})
unfolding is_category
assign id category g = elim (first (has_id id) g.nodes) [
  | none ↦ pure tt g
  | some row ↦
      if is_category category
      then pure tt (
          update_rows (has_id id)
            (λ n. record n {
              category = category;
              metadata = put "classified" (bool true) n.metadata;
            })
            g)
      else throw Error.integrity_error g
]

unfoldable pub classify : List Classification → ℕ → Action Error Graph ℕ
unfolding assign
classify [] count = pure count
classify (c ∷ cs) count = elim c.node_id [
  | none ↦ classify cs count
  | some id ↦ elim c.category [
    | none ↦ classify cs count
    | some category ↦ do _ ← assign id category; classify cs (suc count)
  ]
]

unfoldable pub link : Link → ℕ → Action Error Graph ℕ
unfolding insert_edge_with_cycle_check
link e count = elim e.source_id [
  | none ↦ pure count
  | some src ↦ elim e.target_id [
    | none ↦ pure count
    | some tgt ↦ elim e.predicate [
      | none ↦ pure count
      | some p ↦
          if src == tgt
          then pure count
          else attempt (do _ ← insert_edge_with_cycle_check src tgt p; pure (suc count))
              (λ _. pure count)
    ]
  ]
]

unfoldable pub link_all : List Link → ℕ → Action Error Graph ℕ
unfolding link
link_all [] count = pure count
link_all (e ∷ es) count = do more ← link e count; link_all es more

-- The pair of `classified` and `edges`, where something is pending.
unfoldable pub classify_and_link_pending :
    List Classification → List Link → Action Error Graph (ℕ × ℕ)
unfolding classify link_all
classify_and_link_pending classifications edges = do
  classified ← classify classifications 0
  linked ← link_all edges 0
  pure (classified, linked)
