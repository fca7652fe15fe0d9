-- ===== src/Sleep/Chosen.antt =====
-- Which knowledge base a migration chooses for a community.
use krakey_bot.Base.{
  ℕ, ◌≡◌, ◌⊎◌, refl, sym, ◌∙◌, String, not, ◌||◌, List, [], ◌∷◌, Option, some, ltb, ◌==◌, ==_iff,
  string_eq, nat_eq, inl, inr, Bool-cases, Option-cases,
}
use krakey_bot.Base.Text.{decimal, concat}
use krakey_bot.Base.Action.{Outcome-cases, Preserves, Preserves-pure, Preserves-bind}
use krakey_bot.Base.Dict.{Dict, get, put, has, get-put}
use krakey_bot.MemoryGraph.{Edge}
use krakey_bot.MemoryGraph.Storage.{Node}
use krakey_bot.Sleep.{
  Base, World, Progress, Entry, base_of, count_of, nth, find_revive_target, find_or_create, kb_for,
  has_entry, write_fresh, write_entry, merge_entry, merge_into, dedup_or_write, place_node,
  place_all, move_edge, move_edges,
}

module _ (world : World) (threshold : ℕ) where
  -- The base of a community has its name, or was chosen for it among the archived ones.
  abbrev pub IsBaseOf : ℕ → String → Type 0
  IsBaseOf c k =
      (k ≡ concat ("community_" ∷ decimal c ∷ []))
      ⊎ ((kbs : Dict String Base) × (find_revive_target world threshold c kbs ≡ some k))

  abbrev AllChosen : Dict ℕ String → Type 0
  AllChosen kbs = (c : ℕ) (k : String) → get c kbs ≡ some k → IsBaseOf c k

  abbrev pub Chosen : Progress → Type 0
  Chosen p = AllChosen p.community_kbs

  put-Chosen :
      (c : ℕ) (k : String) (kbs : Dict ℕ String)
      → IsBaseOf c k
      → AllChosen kbs
      → AllChosen (put c k kbs)
  put-Chosen c k kbs b h d j f = elim (Bool-cases (c == d)) [
    | inl i ↦
        let found : ◌≡◌ {A = Option String} (some k) (some j) =
          sym (get-put c d k kbs ∙ rw i refl) ∙ f in
        let same : k ≡ j = cc in let whose : c ≡ d = (==_iff c d).0 i in rw (sym same, sym whose) b
    | inr i ↦ h d j (sym (get-put c d k kbs ∙ rw i refl) ∙ f)
  ]

  find_or_create-Chosen : (c : ℕ) → Preserves Chosen (find_or_create world threshold c)
  unfolding find_or_create
  find_or_create-Chosen c = record {
    at = λ p h. elim (Option-cases (find_revive_target world threshold c p.bases)) [
      | inr (k, e) ↦ rw (e, find_or_create) (put-Chosen c k p.community_kbs (inr (p.bases, e)) h)
      | inl e ↦
          let k = concat ("community_" ∷ decimal c ∷ []) in
          elim (Bool-cases (has k p.bases)) [
            | inl i ↦ rw (e, find_or_create, i) (put-Chosen c k p.community_kbs (inl refl) h)
            | inr i ↦ rw (e, find_or_create, i) (put-Chosen c k p.community_kbs (inl refl) h)
          ]
    ];
  }

  kb_for-Chosen : (c : ℕ) → Preserves Chosen (kb_for world threshold c)
  unfolding kb_for
  kb_for-Chosen c = record {
    at = λ p h. elim (Option-cases (get c p.community_kbs)) [
      | inl e ↦ rw (e, kb_for) ((find_or_create-Chosen c).at p h)
      | inr (k, e) ↦ rw (e, kb_for) h
    ];
  }

  merge_into-Chosen : (k : String) (n : Node) (e : Entry) → Preserves Chosen (merge_into k n e)
  unfolding merge_into merge_entry
  merge_into-Chosen k n e = record {
    at = λ p h. elim (Bool-cases (has_entry e.id (base_of k p.bases).entries)) [
      | inl i ↦ rw (i, merge_into, merge_entry) h
      | inr i ↦ rw (i, merge_into, merge_entry) h
    ];
  }

  write_fresh-Chosen : (k : String) (n : Node) → Preserves Chosen (write_fresh k n)
  unfolding write_fresh write_entry
  write_fresh-Chosen k n = record { at = λ p h. h }

  dedup_or_write-Chosen :
      (k : String) (n : Node) → Preserves Chosen (dedup_or_write world threshold k n)
  unfolding dedup_or_write
  dedup_or_write-Chosen k n = record {
    at = λ p h. elim (Outcome-cases (world.candidates n (base_of k p.bases).entries)) [
      | inl (x, e) ↦ rw (e, dedup_or_write) h
      | inr (ordered, e) ↦ elim (Option-cases (world.pick_same n ordered)) [
        | inl f ↦ rw (e, f, dedup_or_write) ((write_fresh-Chosen k n).at p h)
        | inr (i, f) ↦ elim (Option-cases (nth ordered i)) [
          | inl g ↦ rw (e, f, g, dedup_or_write) ((write_fresh-Chosen k n).at p h)
          | inr (c, g) ↦ rw (e, f, g, dedup_or_write) ((merge_into-Chosen k n c).at p h)
        ]
      ]
    ];
  }

  module _ (least : ℕ) (communities : Dict ℕ ℕ) where
    place_node-Chosen :
        (n : Node) → Preserves Chosen (place_node world threshold least communities n)
    unfolding place_node
    place_node-Chosen n = elim (Option-cases (get n.id communities)) [
      | inl e ↦ rw (e, place_node) (record { at = λ p h. h })
      | inr (c, e) ↦ elim (Bool-cases (ltb (count_of c communities) least)) [
        | inl i ↦ rw (e, place_node, i) (record { at = λ p h. h })
        | inr i ↦
            rw (e, place_node, i)
              (Preserves-bind (kb_for-Chosen c)
                λ k. Preserves-bind (dedup_or_write-Chosen k n) λ r. record { at = λ p h. h })
      ]
    ]

    pub place_all-Chosen :
        (ns : List Node) → Preserves Chosen (place_all world threshold least communities ns)
    unfolding place_all
    place_all-Chosen [] = Preserves-pure tt
    place_all-Chosen (n ∷ ns) = Preserves-bind (place_node-Chosen n) (λ u. place_all-Chosen ns)

move_edge-kbs : (e : Edge) (p : Progress) → (move_edge e p).community_kbs ≡ p.community_kbs
unfolding move_edge
move_edge-kbs e p = elim (Option-cases (get e.node_a p.gm_to_kb_entry)) [
  | inl h ↦ rw (h, move_edge) refl
  | inr ((ca, ea), h) ↦ elim (Option-cases (get e.node_b p.gm_to_kb_entry)) [
    | inl i ↦ rw (h, i, move_edge) refl
    | inr ((cb, eb), i) ↦ elim (Bool-cases (not (ca == cb) || ea == eb)) [
      | inl j ↦ rw (h, i, j, move_edge) refl
      | inr j ↦ elim (Option-cases (get ca p.community_kbs)) [
        | inl k ↦ rw (h, i, j, k, move_edge) refl
        | inr (kb_id, k) ↦ rw (h, i, j, k, move_edge) refl
      ]
    ]
  ]
]

pub move_edges-kbs :
    (es : List Edge) (p : Progress) → (move_edges es p).community_kbs ≡ p.community_kbs
unfolding move_edges
move_edges-kbs [] p = refl
move_edges-kbs (e ∷ es) p = move_edges-kbs es (move_edge e p) ∙ move_edge-kbs e p
