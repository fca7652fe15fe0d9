-- ===== src/Sleep/Passes.antt =====
-- The first pass of migration.py: which nodes it places, what it counts, and that each placed node has
-- an entry.
use krakey_bot.Base.{
  ℕ, suc, ◌+◌, ◌≤◌, ◌≡◌, refl, sym, ap, ◌∙◌, String, Bool, true, false, ◌&&◌, ◌||◌, List, [], ◌∷◌,
  Option, none, some, any, length, ltb, leb, ◌==◌, ==_iff, string_eq, nat_eq, arith, inl, inr,
  Bool-cases, Option-cases,
}
use krakey_bot.Base.Action.{Outcome-cases, returned}
use krakey_bot.Base.Dict.{Dict, get, has, get-put, has-put}
use krakey_bot.MemoryGraph.Storage.{Node}
use krakey_bot.Sleep.{
  has_entry, World, Progress, base_of, count_of, placed, kb_for, dedup_or_write, place_node,
  place_all,
}
use krakey_bot.Sleep.Grown.{Grows, Grows-trans, kb_for_lem}
use krakey_bot.Sleep.Entered.{dedup_or_write-Goes}

-- A node moves that has a community of at least the least size.
abbrev pub moves : ℕ → Dict ℕ ℕ → Node → Bool
moves least communities n = elim (get n.id communities) [
  | none ↦ false
  | some c ↦ leb least (count_of c communities)
]

abbrev pub counted : Progress → ℕ
counted p = p.migrated_nodes + (p.skipped_no_community + p.skipped_small_community)

module _ (least : ℕ) (communities : Dict ℕ ℕ) where
  -- Each placed node has an entry in the base of its community.
  abbrev pub Safe : Progress → Type 0
  Safe p =
      (id c e : ℕ)
      → get id p.gm_to_kb_entry ≡ some (c, e)
      → (get id communities ≡ some c)
        × (k : String) × (get c p.community_kbs ≡ some k)
        × (has_entry e (base_of k p.bases).entries ≡ true)

  abbrev pub leaves : ℕ → Node → Bool
  leaves id n = n.id == id && moves least communities n

  -- What the pass over `ns` does from `p` to `q`.
  pub record Passed (ns : List Node) (p q : Progress) : Type 0 where
    pub placed_ids :
        (id : ℕ) → has id q.gm_to_kb_entry ≡ (any (leaves id) ns || has id p.gm_to_kb_entry)
    pub counts : counted q ≡ length ns + counted p
    pub merges : q.merged_entries + p.migrated_nodes ≤ q.migrated_nodes + p.merged_entries
    pub safe : Safe p → Safe q

  -- A node whose entry is there is placed.
  placed-Passed :
      (n : Node) (c e : ℕ) (m : Bool) (k : String) (p q : Progress)
      → get n.id communities ≡ some c
      → moves least communities n ≡ true
      → Grows p q
      → get c q.community_kbs ≡ some k
      → has_entry e (base_of k q.bases).entries ≡ true
      → Passed (n ∷ []) p (placed n c (e, m) q)
  placed-Passed n c e m k p q belongs h g at there = record {
    placed_ids = λ id.
        ground (arith, has-put n.id id (c, e) q.gm_to_kb_entry, h, ap (λ d. has id d) g.placed);
    counts = omega (arith, g.migrated, g.no_community, g.small);
    merges = ground arith;
    safe = λ s id d f t. elim (Bool-cases (n.id == id)) [
      | inl same ↦
          let now : ◌≡◌ {A = Option (ℕ × ℕ)} (some (c, e)) (some (d, f)) =
            sym (rw same at (get-put n.id id (c, e) q.gm_to_kb_entry)) ∙ t in
          let ours : c ≡ d = cc in
          let its : e ≡ f = cc in
          let whose : n.id ≡ id = (==_iff n.id id).0 same in
          (
            ap (λ i. get i communities) (sym whose) ∙ belongs ∙ ap some ours,
            k,
            rw (sym ours) at,
            rw (sym its) there,
          )
      | inr other ↦
          let before : get id p.gm_to_kb_entry ≡ some (d, f) =
            ap (λ l. get id l) (sym g.placed)
            ∙ (sym (rw other at (get-put n.id id (c, e) q.gm_to_kb_entry)) ∙ t) in
          let (w, j, a, b) = s id d f before in (w, j, g.communities d j a, g.entries j f b)
    ];
  }

  -- A node that does not move is counted, and nothing else changes.
  skipped-Passed :
      (n : Node) (p q : Progress)
      → moves least communities n ≡ false
      → q.gm_to_kb_entry ≡ p.gm_to_kb_entry
      → q.community_kbs ≡ p.community_kbs
      → q.bases ≡ p.bases
      → q.migrated_nodes ≡ p.migrated_nodes
      → q.merged_entries ≡ p.merged_entries
      → counted q ≡ suc (counted p)
      → Passed (n ∷ []) p q
  skipped-Passed n p q h e1 e2 e3 e4 e5 e6 = record {
    placed_ids = λ id. ground (arith, h, ap (λ d. has id d) e1);
    counts = omega arith;
    merges = omega arith;
    safe = λ s. rw (e1, e2, e3) s;
  }

  module _ (world : World) (threshold : ℕ) where
    place_node_lem :
        (n : Node) (p : Progress)
        → (place_node world threshold least communities n p).0 ≡ returned tt
        → Passed (n ∷ []) p (place_node world threshold least communities n p).1
    unfolding place_node
    place_node_lem n p r = elim (Option-cases (get n.id communities)) [
      | inl e ↦
          rw (e, place_node)
            (skipped-Passed n p _ (rw (e, moves) refl) refl refl refl refl refl (omega arith))
      | inr (c, e) ↦ elim (Bool-cases (ltb (count_of c communities) least)) [
        | inl h ↦
            rw (e, place_node, h)
              (skipped-Passed n p _ (rw (e, moves) (ground (arith, h))) refl refl refl refl refl
                (omega arith))
        | inr h ↦
            let found = kb_for_lem world threshold c p in
            let went =
              dedup_or_write-Goes world threshold found.kb_id n (kb_for world threshold c p).1 in
            elim (Outcome-cases
              (dedup_or_write world threshold found.kb_id n (kb_for world threshold c p).1).0) [
                | inl (x, f) ↦ absurd (cc (rw (e, place_node, h, found.returns, f) at r))
                | inr (v, f) ↦
                    rw (e, place_node, h, found.returns, f)
                      (placed-Passed n c v.0 v.1 found.kb_id p _ e
                        (rw (e, moves) (ground (arith, h))) (Grows-trans found.grows went.grows)
                        (went.grows.communities c found.kb_id found.at) (went.there v.0 v.1 f))
              ]
      ]
    ]

    pub place_all_lem :
        (ns : List Node) (p : Progress)
        → (place_all world threshold least communities ns p).0 ≡ returned tt
        → Passed ns p (place_all world threshold least communities ns p).1
    unfolding place_all
    place_all_lem [] p r = record {
      placed_ids = λ id. refl;
      counts = omega arith;
      merges = omega arith;
      safe = λ s. s;
    }
    place_all_lem (n ∷ ns) p r =
        elim (Outcome-cases (place_node world threshold least communities n p).0) [
          | inl (x, f) ↦ absurd (cc (rw (place_all, f) at r))
          | inr (u, f) ↦
              let one = place_node_lem n p f in
              let rest =
                place_all_lem ns (place_node world threshold least communities n p).1
                  (rw (place_all, f) at r) in
              rw (place_all, f)
                (record {
                  placed_ids = λ id. ground (arith, one.placed_ids id, rest.placed_ids id);
                  counts = omega (arith, one.counts, rest.counts);
                  merges = omega (arith, one.merges, rest.merges);
                  safe = λ s. rest.safe (one.safe s);
                })
        ]
