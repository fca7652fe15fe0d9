-- ===== src/MemoryGraph/Storage/Edges.antt =====
-- Deleting nodes and inserting edges keeps the tables of Graph Memory well formed.
use krakey_bot.Base.{
  ℕ, ◌≡◌, refl, String, Bool, true, false, not, ◌&&◌, List, [], ◌∷◌, keep, elem, Distinct, ◌==◌,
  string_eq, nat_eq, arith, inl, inr, Bool-cases, Bool-clash,
}
use krakey_bot.Base.Action.{Preserves}
use krakey_bot.MemoryGraph.{Edge, would_create_cycle, is_allowed, normalized, add_row}
use krakey_bot.MemoryGraph.Joined.{Adjacent, Joined-weaken}
use krakey_bot.MemoryGraph.Search.{would_create_cycle_lem}
use krakey_bot.MemoryGraph.Forest.{Forest}
use krakey_bot.MemoryGraph.Storage.{
  Node, ids, has_id, Graph, delete_rows, delete_node, delete_by_category,
  insert_edge_with_cycle_check,
}
use krakey_bot.MemoryGraph.Storage.Sound.{valid_categories, valid_ends, below, IsSound}

-- A node's id is among the ids of those that are kept or of those that are not.
module _ (p : Node → Bool) where
  elem-keep :
      (ns : List Node) (m : ℕ)
      → elem m (ids ns) ≡ true
      → elem m (ids (keep p ns)) ≡ false
      → elem m (ids (keep (λ n. not (p n)) ns)) ≡ true
  elem-keep [] m h k = h
  elem-keep (n ∷ ns) m h k = ground (arith, elem-keep ns m)

module _ (q : Node → Bool) where
  not_elem-keep :
      (ns : List Node) (m : ℕ) → elem m (ids ns) ≡ false → elem m (ids (keep q ns)) ≡ false
  not_elem-keep [] m h = refl
  not_elem-keep (n ∷ ns) m h = ground (arith, not_elem-keep ns m)

  below-keep : (b : ℕ) (ns : List Node) → below b (ids ns) ≡ true → below b (ids (keep q ns)) ≡ true
  below-keep b [] h = refl
  below-keep b (n ∷ ns) h = ground (arith, below-keep b ns)

  Distinct-keep : (ns : List Node) → Distinct (ids ns) → Distinct (ids (keep q ns))
  Distinct-keep [] d = tt
  Distinct-keep (n ∷ ns) (h, d) = elim (Bool-cases (q n)) [
    | inl e ↦ rw e (not_elem-keep ns n.id h, Distinct-keep ns d)
    | inr e ↦ rw e (Distinct-keep ns d)
  ]

  valid_categories-keep :
      (ns : List Node) → valid_categories ns ≡ true → valid_categories (keep q ns) ≡ true
  valid_categories-keep [] h = refl
  valid_categories-keep (n ∷ ns) h = ground (arith, valid_categories-keep ns)

Adjacent-keep :
    (q : Edge → Bool) (es : List Edge) (x y : ℕ) → Adjacent (keep q es) x y → Adjacent es x y
Adjacent-keep q [] x y h = h
Adjacent-keep q (e ∷ es) x y h = elim (Bool-cases (q e)) [
  | inl k ↦ elim (rw k at h) [ inl a ↦ inl a | inr a ↦ inr (Adjacent-keep q es x y a) ]
  | inr k ↦ inr (Adjacent-keep q es x y (rw k at h))
]

Forest-keep : (q : Edge → Bool) (es : List Edge) → Forest es → Forest (keep q es)
Forest-keep q [] f = f
Forest-keep q (e ∷ es) (h, f) = elim (Bool-cases (q e)) [
  | inl k ↦ rw k (λ j. h (Joined-weaken (Adjacent-keep q es) j), Forest-keep q es f)
  | inr k ↦ rw k (Forest-keep q es f)
]

module _ (p : Node → Bool) (ns : List Node) where
  abbrev survives : Edge → Bool
  survives e = not (elem e.node_a (ids (keep p ns))) && not (elem e.node_b (ids (keep p ns)))

  valid_ends-keep :
      (es : List Edge)
      → valid_ends (ids ns) es ≡ true
      → valid_ends (ids (keep (λ n. not (p n)) ns)) (keep survives es) ≡ true
  valid_ends-keep [] h = refl
  valid_ends-keep (e ∷ es) h =
      ground (arith, valid_ends-keep es, elem-keep p ns e.node_a, elem-keep p ns e.node_b)

delete_rows-IsSound : (p : Node → Bool) (g : Graph) → IsSound g → IsSound (delete_rows p g)
unfolding delete_rows
delete_rows-IsSound p g s = record {
  fresh = below-keep (λ n. not (p n)) g.next_id g.nodes s.fresh;
  distinct = Distinct-keep (λ n. not (p n)) g.nodes s.distinct;
  categories = valid_categories-keep (λ n. not (p n)) g.nodes s.categories;
  ends = valid_ends-keep p g.nodes g.edges s.ends;
  forest = Forest-keep _ g.edges s.forest;
}

pub delete_node-IsSound : (id : ℕ) → Preserves IsSound (delete_node id)
unfolding delete_node
delete_node-IsSound id = record { at = λ g s. delete_rows-IsSound (has_id id) g s }

pub delete_by_category-IsSound :
    (category : String) → Preserves IsSound (delete_by_category category)
unfolding delete_by_category
delete_by_category-IsSound category = record {
  at = λ g s. delete_rows-IsSound (λ n. n.category == category) g s;
}

add_row-IsSound :
    (g : Graph) (e : Edge)
    → IsSound g
    → IsSound (record g { edges = (add_row (ids g.nodes) g.edges e).1 })
unfolding add_row
add_row-IsSound g e s = elim (Bool-cases (would_create_cycle g.edges e.node_b e.node_a)) [
  | inl k ↦ rw (k, add_row) s
  | inr k ↦ elim (Bool-cases (is_allowed (ids g.nodes) g.edges e)) [
    | inl a ↦
        rw (k, a, add_row)
          (record {
            fresh = s.fresh;
            distinct = s.distinct;
            categories = s.categories;
            ends = ground (arith, s.ends);
            forest = (
              λ j. Bool-clash ((would_create_cycle_lem g.edges e.node_a e.node_b).1 j) k,
              s.forest,
            );
          })
    | inr a ↦ rw (k, a, add_row) s
  ]
]

pub insert_edge_with_cycle_check-IsSound :
    (src tgt : ℕ) (predicate : String)
    → Preserves IsSound (insert_edge_with_cycle_check src tgt predicate)
unfolding insert_edge_with_cycle_check
insert_edge_with_cycle_check-IsSound src tgt predicate = record {
  at = λ g s. elim (Bool-cases (src == tgt)) [
    | inl e ↦ rw (e, insert_edge_with_cycle_check) s
    | inr e ↦
        rw (e, insert_edge_with_cycle_check) (add_row-IsSound g (normalized src tgt predicate) s)
  ];
}
