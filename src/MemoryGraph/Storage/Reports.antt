-- ===== src/MemoryGraph/Storage/Reports.antt =====
-- What `insert_edge_with_cycle_check` reports, by what the graph holds.
use krakey_bot.Base.{
  ℕ, ◌<◌, ◌≡◌, ◌≢◌, ◌⊎◌, refl, String, true, false, ◌&&◌, List, [], ◌∷◌, any, elem, if◌then◌else◌,
  ltb, ◌==◌, string_eq, nat_eq, arith, inl, inr, Bool-cases, Bool-clash,
}
use krakey_bot.Base.Action.{returned}
use krakey_bot.MemoryGraph.{
  Edge, inserted, skipped, would_create_cycle, is_same_row, normalized, add_row,
}
use krakey_bot.MemoryGraph.Joined.{Adjacent, Joined, here, step, Joined-sym}
use krakey_bot.MemoryGraph.Search.{would_create_cycle_lem}
use krakey_bot.MemoryGraph.Storage.{ids, Graph, insert_edge_with_cycle_check}

same_row-Adjacent :
    (e : Edge) (es : List Edge) → any (is_same_row e) es ≡ true → Adjacent es e.node_a e.node_b
same_row-Adjacent e [] h = absurd (cc)
same_row-Adjacent e (f ∷ es) h = elim (Bool-cases (is_same_row e f)) [
  | inl k ↦ inl (inl (ground arith))
  | inr k ↦ inr (same_row-Adjacent e es (ground arith))
]

unique_of_not_joined :
    (e : Edge) (es : List Edge)
    → would_create_cycle es e.node_b e.node_a ≡ false
    → any (is_same_row e) es ≡ false
unique_of_not_joined e es h = elim (Bool-cases (any (is_same_row e) es)) [
  | inl k ↦
      Bool-clash
        ((would_create_cycle_lem es e.node_a e.node_b).1 (step (same_row-Adjacent e es k) here)) h
  | inr k ↦ k
]

-- Where the two nodes are not joined, the two REFERENCES decide.
add_row_lem :
    (there : List ℕ) (es : List Edge) (e : Edge)
    → e.node_a < e.node_b
    → would_create_cycle es e.node_b e.node_a ≡ false
    → add_row there es e ≡ (
        if elem e.node_a there && elem e.node_b there
        then (inserted, e ∷ es)
        else (skipped "duplicate edge", es))
unfolding add_row
add_row_lem there es e h k = ground (arith, unique_of_not_joined e es k)

add_row_cycle :
    (there : List ℕ) (es : List Edge) (e : Edge)
    → would_create_cycle es e.node_b e.node_a ≡ true
    → add_row there es e ≡ (skipped "would create cycle", es)
unfolding add_row
add_row_cycle there es e k = rw (k, add_row) refl

module _ (g : Graph) (src tgt : ℕ) (predicate : String) where
  normalized-lt :
      src ≢ tgt → (normalized src tgt predicate).node_a < (normalized src tgt predicate).node_b
  normalized-lt h = ground arith

  checks :
      would_create_cycle g.edges
          (normalized src tgt predicate).node_b
          (normalized src tgt predicate).node_a
        ≡ true
      → Joined g.edges tgt src
  checks h = elim (Bool-cases (ltb src tgt)) [
    | inl k ↦ (would_create_cycle_lem g.edges src tgt).0 (rw k at h)
    | inr k ↦ Joined-sym ((would_create_cycle_lem g.edges tgt src).0 (rw k at h))
  ]

  checked :
      Joined g.edges tgt src
      → would_create_cycle g.edges
          (normalized src tgt predicate).node_b
          (normalized src tgt predicate).node_a
        ≡ true
  checked j = elim (Bool-cases (ltb src tgt)) [
    | inl k ↦ rw k ((would_create_cycle_lem g.edges src tgt).1 j)
    | inr k ↦ rw k ((would_create_cycle_lem g.edges tgt src).1 (Joined-sym j))
  ]

  ends_there :
      (there : List ℕ)
      → (elem (normalized src tgt predicate).node_a there
          && elem (normalized src tgt predicate).node_b there)
        ≡ (elem src there && elem tgt there)
  ends_there there = ground arith

  -- Between two different nodes the insertion never raises, and it does one of three things. Where the
  -- edges join the two nodes already, be it by this very edge, it reports a cycle. Where they do
  -- not, it stores the edge if both nodes exist; if one does not exist, it reports a duplicate. A
  -- skipped edge changes nothing.
  pub insert_edge-reports :
      src ≢ tgt
      → (Joined g.edges tgt src
          × (insert_edge_with_cycle_check src tgt predicate g
              ≡ (returned (skipped "would create cycle"), g)))
        ⊎ (((¬ Joined g.edges tgt src)
              × ((elem src (ids g.nodes) && elem tgt (ids g.nodes)) ≡ true)
              × (insert_edge_with_cycle_check src tgt predicate g ≡ (
                returned inserted,
                record g { edges = normalized src tgt predicate ∷ g.edges },
              )))
            ⊎ ((¬ Joined g.edges tgt src)
                × ((elem src (ids g.nodes) && elem tgt (ids g.nodes)) ≡ false)
                × (insert_edge_with_cycle_check src tgt predicate g
                    ≡ (returned (skipped "duplicate edge"), g))))
  unfolding insert_edge_with_cycle_check
  insert_edge-reports h =
      let e = normalized src tgt predicate in
      elim (Bool-cases (would_create_cycle g.edges e.node_b e.node_a)) [
        | inl k ↦ inl (checks k, rw (apart, add_row_cycle (ids g.nodes) g.edges e k) refl)
        | inr k ↦
            let free = λ (j : Joined g.edges tgt src). Bool-clash {P = ⊥} (checked j) k in
            let row = add_row_lem (ids g.nodes) g.edges e (normalized-lt h) k in
            elim (Bool-cases (elem src (ids g.nodes) && elem tgt (ids g.nodes))) [
              | inl t ↦ inr (inl (free, t, rw (apart, row, ends_there (ids g.nodes), t) refl))
              | inr t ↦ inr (inr (free, t, rw (apart, row, ends_there (ids g.nodes), t) refl))
            ]
      ]
    where
      apart : (src == tgt) ≡ false
      apart = ground arith
