-- ===== src/MemoryGraph/Storage/Sound.antt =====
-- The tables of Graph Memory are well formed, and every operation of gm/storage.py keeps them so.
use krakey_bot.Base.{
  ℕ, suc, ◌≡◌, refl, sym, subst, ap, String, Bool, true, false, ◌&&◌, List, [], ◌∷◌, ◌++◌, Option,
  none, some, keep, elem, Distinct, elem-append, ltb, ◌==◌, ==_iff, string_eq, nat_eq, is_empty,
  arith, inl, inr, Bool-cases, Option-cases,
}
use krakey_bot.Base.Action.{Preserves}
use krakey_bot.Base.Dict.{Dict}
use krakey_bot.Json.{Json}
use krakey_bot.MemoryGraph.{Edge}
use krakey_bot.MemoryGraph.Forest.{Forest}
use krakey_bot.MemoryGraph.Storage.{
  Node, is_category, ids, has_id, is_named, first, rewrite, refresh, Graph, NewNode, insert_node,
  update_rows, upsert_node, set_metadata, set_node_fields, update_node_category,
}

abbrev pub valid_categories : List Node → Bool
valid_categories [] = true
valid_categories (n ∷ ns) = is_category n.category && valid_categories ns

-- The ends of each row are two nodes, the lesser id first.
abbrev pub valid_ends : List ℕ → List Edge → Bool
valid_ends there [] = true
valid_ends there (e ∷ es) =
    ltb e.node_a e.node_b && (elem e.node_a there && (elem e.node_b there && valid_ends there es))

-- Every id of a list is below `n`.
abbrev pub below : ℕ → List ℕ → Bool
below n [] = true
below n (x ∷ xs) = ltb x n && below n xs

pub record IsSound (g : Graph) : Type 0 where
  pub fresh : below g.next_id (ids g.nodes) ≡ true
  pub distinct : Distinct (ids g.nodes)
  pub categories : valid_categories g.nodes ≡ true
  pub ends : valid_ends (ids g.nodes) g.edges ≡ true
  pub forest : Forest g.edges

below-elem : (n : ℕ) (xs : List ℕ) → below n xs ≡ true → elem n xs ≡ false
below-elem n [] h = refl
below-elem n (x ∷ xs) h = ground (arith, below-elem n xs)

below-append : (n : ℕ) (xs : List ℕ) → below n xs ≡ true → below (suc n) (xs ++ n ∷ []) ≡ true
below-append n [] h = ground arith
below-append n (x ∷ xs) h = ground (arith, below-append n xs)

Distinct-append : (n : ℕ) (xs : List ℕ) → elem n xs ≡ false → Distinct xs → Distinct (xs ++ n ∷ [])
Distinct-append n [] h d = (refl, tt)
Distinct-append n (x ∷ xs) h (k, d) = (
  ground (arith, elem-append x xs (n ∷ []), ==_iff n x, ==_iff x n),
  Distinct-append n xs (ground arith) d,
)

ids-append : (ns : List Node) (n : Node) → ids (ns ++ n ∷ []) ≡ ids ns ++ n.id ∷ []
ids-append [] n = refl
ids-append (m ∷ ns) n = ap (λ l. m.id ∷ l) (ids-append ns n)

valid_categories-append :
    (ns : List Node) (n : Node)
    → valid_categories ns ≡ true
    → is_category n.category ≡ true
    → valid_categories (ns ++ n ∷ []) ≡ true
valid_categories-append [] n h k = ground arith
valid_categories-append (m ∷ ns) n h k = ground (arith, valid_categories-append ns n)

pub valid_ends-weaken :
    (xs ys : List ℕ) (es : List Edge)
    → ((n : ℕ) → elem n xs ≡ true → elem n ys ≡ true)
    → valid_ends xs es ≡ true
    → valid_ends ys es ≡ true
valid_ends-weaken xs ys [] h k = refl
valid_ends-weaken xs ys (e ∷ es) h k =
    ground (arith, h e.node_a, h e.node_b, valid_ends-weaken xs ys es h)

module _ (p : Node → Bool) (f : Node → Node) where
  ids-rewrite : (ns : List Node) → ((n : Node) → (f n).id ≡ n.id) → ids (rewrite p f ns) ≡ ids ns
  ids-rewrite [] h = refl
  ids-rewrite (n ∷ ns) h = ground (arith, h n, ids-rewrite ns h)

  valid_categories-rewrite :
      (ns : List Node)
      → ((n : Node) → is_category n.category ≡ true → is_category (f n).category ≡ true)
      → valid_categories ns ≡ true
      → valid_categories (rewrite p f ns) ≡ true
  valid_categories-rewrite [] h k = refl
  valid_categories-rewrite (n ∷ ns) h k = ground (arith, h n, valid_categories-rewrite ns h)

  pub update_rows-IsSound :
      (g : Graph)
      → ((n : Node) → (f n).id ≡ n.id)
      → ((n : Node) → is_category n.category ≡ true → is_category (f n).category ≡ true)
      → IsSound g
      → IsSound (update_rows p f g)
  update_rows-IsSound g h k s =
      let same = ids-rewrite g.nodes h in
      record {
        fresh = subst (λ l. below g.next_id l ≡ true) (sym same) s.fresh;
        distinct = subst Distinct (sym same) s.distinct;
        categories = valid_categories-rewrite g.nodes k s.categories;
        ends = subst (λ l. valid_ends l g.edges ≡ true) (sym same) s.ends;
        forest = s.forest;
      }

pub insert_node-IsSound : (n : NewNode) → Preserves IsSound (insert_node n)
unfolding insert_node
insert_node-IsSound n = record {
  at = λ g s. elim (Bool-cases (is_category n.category)) [
    | inl k ↦ rw (k, insert_node) (added g s k)
    | inr k ↦ rw (k, insert_node) s
  ];
}
  where
    added :
        (g : Graph)
        → IsSound g
        → is_category n.category ≡ true
        → IsSound (record g {
          nodes =
              g.nodes
              ++ record {
                id = g.next_id;
                name = n.name;
                category = n.category;
                description = n.description;
                importance = n.importance;
                source_type = n.source_type;
                metadata = n.metadata;
              }
                ∷ [];
          next_id = suc g.next_id;
        })
    added g s k =
        let more = λ (r : Node). sym (ids-append g.nodes r) in
        record {
          fresh =
              subst (λ l. below (suc g.next_id) l ≡ true) (more _)
                (below-append g.next_id (ids g.nodes) s.fresh);
          distinct = subst Distinct (more _) (
              Distinct-append g.next_id (ids g.nodes) (below-elem g.next_id (ids g.nodes) s.fresh)
                s.distinct);
          categories = valid_categories-append g.nodes _ s.categories k;
          ends =
              subst (λ l. valid_ends l g.edges ≡ true) (more _)
                (valid_ends-weaken (ids g.nodes) _ g.edges
                  (λ m h. ground (arith, elem-append m (ids g.nodes) (g.next_id ∷ []))) s.ends);
          forest = s.forest;
        }

pub upsert_node-IsSound : (n : NewNode) → Preserves IsSound (upsert_node n)
unfolding upsert_node
upsert_node-IsSound n = record {
  at = λ g s. elim (Option-cases (first (is_named n.name n.category) g.nodes)) [
    | inl e ↦ rw (e, upsert_node) ((insert_node-IsSound n).at g s)
    | inr (row, e) ↦
        rw (e, upsert_node)
          (update_rows-IsSound (has_id row.id) (refresh n.description) g (refreshed n.description)
            (kept n.description) s)
  ];
}
  where
    refreshed : (d : Option String) (m : Node) → (refresh d m).id ≡ m.id
    refreshed none m = refl
    refreshed (some d) m = refl

    kept :
        (d : Option String) (m : Node)
        → is_category m.category ≡ true
        → is_category (refresh d m).category ≡ true
    kept none m h = h
    kept (some d) m h = h

pub set_metadata-IsSound :
    (id : ℕ) (delta : Dict String Json) → Preserves IsSound (set_metadata id delta)
unfolding set_metadata
set_metadata-IsSound id delta = record {
  at = λ g s. elim (Option-cases (first (has_id id) g.nodes)) [
    | inl e ↦ rw (e, set_metadata) s
    | inr (row, e) ↦
        rw (e, set_metadata) (update_rows-IsSound (has_id id) _ g (λ n. refl) (λ n h. h) s)
  ];
}

pub set_node_fields-IsSound :
    (id : ℕ) (d : Option String) (i : Option ℕ) → Preserves IsSound (set_node_fields id d i)
unfolding set_node_fields
set_node_fields-IsSound id none none = record { at = λ g s. s }
set_node_fields-IsSound id (some d) none = record {
  at = λ g s. update_rows-IsSound (has_id id) _ g (λ n. refl) (λ n h. h) s;
}
set_node_fields-IsSound id none (some i) = record {
  at = λ g s. update_rows-IsSound (has_id id) _ g (λ n. refl) (λ n h. h) s;
}
set_node_fields-IsSound id (some d) (some i) = record {
  at = λ g s. update_rows-IsSound (has_id id) _ g (λ n. refl) (λ n h. h) s;
}

pub update_node_category-IsSound :
    (name category : String) → Preserves IsSound (update_node_category name category)
unfolding update_node_category
update_node_category-IsSound name category = record {
  at = λ g s. elim (Bool-cases (is_empty (keep (λ n. n.name == name) g.nodes))) [
    | inl e ↦ rw (e, update_node_category) s
    | inr e ↦ elim (Bool-cases (is_category category)) [
      | inl k ↦
          rw (e, k, update_node_category)
            (update_rows-IsSound (λ n. n.name == name) _ g (λ n. refl) (λ n h. k) s)
      | inr k ↦ rw (e, k, update_node_category) s
    ]
  ];
}
