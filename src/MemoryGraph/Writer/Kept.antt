-- ===== src/MemoryGraph/Writer/Kept.antt =====
-- The writers of Graph Memory keep its tables well formed, also where they raise half way.
use krakey_bot.Base.{
  ℕ, suc, refl, String, Bool, true, false, ◌||◌, List, [], ◌∷◌, Option, none, some, if◌then◌else◌,
  ◌==◌, string_eq, nat_eq, Option-cases, Bool-cases, inl, inr,
}
use krakey_bot.Base.Action.{
  Action, Preserves, Preserves-pure, Preserves-throw, Preserves-attempt, Preserves-bind,
}
use krakey_bot.Base.Dict.{Dict, put}
use krakey_bot.MemoryGraph.Storage.{is_category, has_id, first, Error, Graph}
use krakey_bot.MemoryGraph.Storage.Sound.{
  IsSound, update_rows-IsSound, upsert_node-IsSound, set_metadata-IsSound,
}
use krakey_bot.MemoryGraph.Storage.Edges.{insert_edge_with_cycle_check-IsSound}
use krakey_bot.MemoryGraph.Writer.{ExtractedNode, ExtractedEdge, default, resolve}
use krakey_bot.MemoryGraph.Writer.Extraction
use krakey_bot.MemoryGraph.Writer.Explicit
use krakey_bot.MemoryGraph.Writer.Pending

abbrev Keeps : {A : Type 0} → Action Error Graph A → Type 0
Keeps m = Preserves IsSound m

Keeps-if :
    {A : Type 0} (b : Bool) (m n : Action Error Graph A)
    → Keeps m
    → Keeps n
    → Keeps (if b then m else n)
Keeps-if true m n p q = p
Keeps-if false m n p q = q

-- `remember_extraction`.
module _ (n : ExtractedNode) (w : Extraction.Written) where
  write_node-Keeps : Keeps (Extraction.write_node n w)
  unfolding Extraction.write_node
  write_node-Keeps =
      Keeps-if (default "" n.name == "" || default "" n.category == "") _ _ (Preserves-pure _) (
        Preserves-attempt (Preserves-bind (upsert_node-IsSound _) (λ id. Preserves-pure _))
          (λ x. Preserves-pure _))

write_nodes-Keeps :
    (ns : List ExtractedNode) (w : Extraction.Written) → Keeps (Extraction.write_nodes ns w)
unfolding Extraction.write_nodes
write_nodes-Keeps [] w = Preserves-pure w
write_nodes-Keeps (n ∷ ns) w = Preserves-bind (write_node-Keeps n w) (write_nodes-Keeps ns)

link-Keeps : (s t : Option ℕ) (p : String) (k : ℕ) → Keeps (Extraction.link s t p k)
unfolding Extraction.link
link-Keeps (some s) (some t) p k = Keeps-if (s == t) _ _ (Preserves-pure k) (
    Preserves-attempt
      (Preserves-bind (insert_edge_with_cycle_check-IsSound s t p) (λ r. Preserves-pure (suc k)))
      (λ x. Preserves-pure k))
link-Keeps (some s) none p k = Preserves-pure k
link-Keeps none t p k = Preserves-pure k

write_edge-Keeps :
    (m : Dict String ℕ) (e : ExtractedEdge) (k : ℕ) → Keeps (Extraction.write_edge m e k)
unfolding Extraction.write_edge
write_edge-Keeps m e k = record {
  at = λ g s. elim (Bool-cases (default "" e.source_name == "" || default "" e.target_name == "")) [
    | inl h ↦ rw (h, Extraction.write_edge) s
    | inr h ↦
        rw (h, Extraction.write_edge)
          ((link-Keeps (resolve m g (default "" e.source_name))
              (resolve m g (default "" e.target_name)) (default "" e.predicate) k).at
            g s)
  ];
}

write_edges-Keeps :
    (m : Dict String ℕ) (es : List ExtractedEdge) (k : ℕ) → Keeps (Extraction.write_edges m es k)
unfolding Extraction.write_edges
write_edges-Keeps m [] k = Preserves-pure k
write_edges-Keeps m (e ∷ es) k = Preserves-bind (write_edge-Keeps m e k) (write_edges-Keeps m es)

pub remember_extraction-IsSound :
    (ns : List ExtractedNode) (es : List ExtractedEdge)
    → Preserves IsSound (Extraction.remember_extraction ns es)
unfolding Extraction.remember_extraction
remember_extraction-IsSound ns es =
    Preserves-bind (write_nodes-Keeps ns ([], 0))
      (λ w. Preserves-bind (write_edges-Keeps w.0 es 0) (λ k. Preserves-pure (w.1, k)))

-- `explicit_write`.
explicit_node-Keeps :
    (i : ℕ) (n : ExtractedNode) (m : Dict String ℕ) → Keeps (Explicit.write_node i n m)
unfolding Explicit.write_node
explicit_node-Keeps i n m = elim (Option-cases n.name) [
  | inl e ↦ rw (e, Explicit.write_node) (Preserves-throw _)
  | inr (name, e) ↦ elim (Option-cases n.category) [
    | inl f ↦ rw (e, f, Explicit.write_node) (Preserves-throw _)
    | inr (category, f) ↦
        rw (e, f, Explicit.write_node)
          (Preserves-bind (upsert_node-IsSound _) (λ id.
            Preserves-bind (set_metadata-IsSound id Explicit.classified)
              (λ u. Preserves-pure (put name id m))))
  ]
]

explicit_nodes-Keeps :
    (i : ℕ) (ns : List ExtractedNode) (m : Dict String ℕ) → Keeps (Explicit.write_nodes i ns m)
unfolding Explicit.write_nodes
explicit_nodes-Keeps i [] m = Preserves-pure m
explicit_nodes-Keeps i (n ∷ ns) m =
    Preserves-bind (explicit_node-Keeps i n m) (explicit_nodes-Keeps i ns)

explicit_link-Keeps : (s t : Option ℕ) (p : Option String) → Keeps (Explicit.link s t p)
unfolding Explicit.link
explicit_link-Keeps (some s) (some t) none =
    Keeps-if (s == t) _ _ (Preserves-pure tt) (Preserves-throw _)
explicit_link-Keeps (some s) (some t) (some p) =
    Keeps-if (s == t) _ _ (Preserves-pure tt)
      (Preserves-bind (insert_edge_with_cycle_check-IsSound s t p) (λ r. Preserves-pure tt))
explicit_link-Keeps (some s) none p = Preserves-pure tt
explicit_link-Keeps none t p = Preserves-pure tt

explicit_edges-Keeps :
    (m : Dict String ℕ) (es : List ExtractedEdge) → Keeps (Explicit.write_edges m es)
unfolding Explicit.write_edges
explicit_edges-Keeps m [] = Preserves-pure tt
explicit_edges-Keeps m (e ∷ es) =
    Preserves-bind
      (record {
        at = λ g s.
            (explicit_link-Keeps (Explicit.endpoint m g e.source_name)
                (Explicit.endpoint m g e.target_name) e.predicate).at
              g s;
      })
      (λ u. explicit_edges-Keeps m es)

pub explicit_write-IsSound :
    (high : Bool) (ns : List ExtractedNode) (es : List ExtractedEdge)
    → Preserves IsSound (Explicit.explicit_write high ns es)
unfolding Explicit.explicit_write
explicit_write-IsSound high ns es =
    Preserves-bind (explicit_nodes-Keeps (if high then 4 else 2) ns [])
      (λ m. Preserves-bind (explicit_edges-Keeps m es) (λ u. Preserves-pure _))

-- `classify_and_link_pending`.
assign-Keeps : (id : ℕ) (c : String) → Keeps (Pending.assign id c)
unfolding Pending.assign
assign-Keeps id c = record {
  at = λ g s. elim (Option-cases (first (has_id id) g.nodes)) [
    | inl e ↦ rw (e, Pending.assign) s
    | inr (row, e) ↦ elim (Bool-cases (is_category c)) [
      | inl k ↦
          rw (e, k, Pending.assign) (update_rows-IsSound (has_id id) _ g (λ n. refl) (λ n h. k) s)
      | inr k ↦ rw (e, k, Pending.assign) s
    ]
  ];
}

classify-Keeps : (cs : List Pending.Classification) (k : ℕ) → Keeps (Pending.classify cs k)
unfolding Pending.classify
classify-Keeps [] k = Preserves-pure k
classify-Keeps (c ∷ cs) k = elim (Option-cases c.node_id) [
  | inl e ↦ rw (e, Pending.classify) (classify-Keeps cs k)
  | inr (id, e) ↦ elim (Option-cases c.category) [
    | inl f ↦ rw (e, f, Pending.classify) (classify-Keeps cs k)
    | inr (category, f) ↦
        rw (e, f, Pending.classify)
          (Preserves-bind (assign-Keeps id category) (λ u. classify-Keeps cs (suc k)))
  ]
]

pending_link-Keeps : (e : Pending.Link) (k : ℕ) → Keeps (Pending.link e k)
unfolding Pending.link
pending_link-Keeps e k = elim (Option-cases e.source_id) [
  | inl a ↦ rw (a, Pending.link) (Preserves-pure k)
  | inr (s, a) ↦ elim (Option-cases e.target_id) [
    | inl b ↦ rw (a, b, Pending.link) (Preserves-pure k)
    | inr (t, b) ↦ elim (Option-cases e.predicate) [
      | inl c ↦ rw (a, b, c, Pending.link) (Preserves-pure k)
      | inr (p, c) ↦
          rw (a, b, c, Pending.link)
            (Keeps-if (s == t) _ _ (Preserves-pure k) (
              Preserves-attempt
                (Preserves-bind (insert_edge_with_cycle_check-IsSound s t p)
                  (λ r. Preserves-pure (suc k)))
                (λ x. Preserves-pure k)))
    ]
  ]
]

pending_links-Keeps : (es : List Pending.Link) (k : ℕ) → Keeps (Pending.link_all es k)
unfolding Pending.link_all
pending_links-Keeps [] k = Preserves-pure k
pending_links-Keeps (e ∷ es) k = Preserves-bind (pending_link-Keeps e k) (pending_links-Keeps es)

pub classify_and_link_pending-IsSound :
    (cs : List Pending.Classification) (es : List Pending.Link)
    → Preserves IsSound (Pending.classify_and_link_pending cs es)
unfolding Pending.classify_and_link_pending
classify_and_link_pending-IsSound cs es =
    Preserves-bind (classify-Keeps cs 0)
      (λ c. Preserves-bind (pending_links-Keeps es 0) (λ k. Preserves-pure (c, k)))
