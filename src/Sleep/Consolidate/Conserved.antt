-- ===== src/Sleep/Consolidate/Conserved.antt =====
-- `consolidate_kbs` moves the active entries of the knowledge bases and loses none of them, and merges
-- where bases are near.
use krakey_bot.Base.{
  ℕ, ◌+◌, ◌<◌, ◌⊎◌, length, ◌≡◌, refl, ◌∙◌, String, true, false, ◌||◌, List, [], ◌∷◌, elem,
  Distinct, ltb, ◌==◌, ==_iff, ==_refl, string_eq, arith, inl, inr, Bool-cases, Option-cases,
}
use krakey_bot.Base.Sort.Descending.{sort_down, insert_down}
use krakey_bot.Base.Dict.{Dict, put, has, keys, has-put, put-Distinct}
use krakey_bot.Sleep.{Base, base_of}
use krakey_bot.Sleep.Consolidate.{World, Info, gather, index_all, consolidate_kbs}
use krakey_bot.Sleep.Consolidate.Counts.{count_all, count_all-put}
use krakey_bot.Sleep.Consolidate.Tried.{spread, sort_down-length, consolidate_loop-Tried}
use krakey_bot.Sleep.Consolidate.Merges.{names, all_there, loop_lem}

-- Storing the vectors.
all_there-put :
    (k : String) (b : Base) (kbs : Dict String Base) (is : List Info)
    → all_there kbs is ≡ true
    → all_there (put k b kbs) is ≡ true
all_there-put k b kbs [] h = refl
all_there-put k b kbs (i ∷ is) h = ground (arith, all_there-put k b kbs is, has-put k i.kb_id b kbs)

record Indexed (js : List Info) (kbs after : Dict String Base) : Type 0 where
  counts : (c : String) → count_all c after ≡ count_all c kbs
  distinct : Distinct (keys after)
  there_js : all_there after js ≡ true

index_all_lem :
    (is js : List Info) (kbs : Dict String Base)
    → all_there kbs is ≡ true
    → all_there kbs js ≡ true
    → Distinct (keys kbs)
    → Indexed js kbs (index_all is kbs)
unfolding index_all
index_all_lem [] js kbs h j d = record { counts = λ c. refl; distinct = d; there_js = j }
index_all_lem (i ∷ is) js kbs h j d =
    let b : Base = record (base_of i.kb_id kbs) { has_index = true } in
    let rest =
      index_all_lem is js (put i.kb_id b kbs) (all_there-put i.kb_id b kbs is (ground arith))
        (all_there-put i.kb_id b kbs js j) (put-Distinct i.kb_id b kbs d) in
    record {
      counts = λ c. omega (arith, rest.counts c, count_all-put c i.kb_id b kbs (ground arith));
      distinct = rest.distinct;
      there_js = rest.there_js;
    }

-- The sort keeps the ids.
abbrev pub by_importance : Info → ℕ
by_importance i = i.importance

elem-insert_down :
    (x : String) (a : Info) (is : List Info)
    → elem x (names (insert_down by_importance a is)) ≡ (a.kb_id == x || elem x (names is))
unfolding insert_down
elem-insert_down x a [] = refl
elem-insert_down x a (i ∷ is) = ground (arith, elem-insert_down x a is)

elem-sort_down :
    (x : String) (is : List Info) → elem x (names (sort_down by_importance is)) ≡ elem x (names is)
unfolding sort_down
elem-sort_down x [] = refl
elem-sort_down x (i ∷ is) =
    elem-insert_down x i (sort_down by_importance is) ∙ rw (elem-sort_down x is) refl

insert_down-Distinct :
    (a : Info) (is : List Info)
    → elem a.kb_id (names is) ≡ false
    → Distinct (names is)
    → Distinct (names (insert_down by_importance a is))
unfolding insert_down
insert_down-Distinct a [] h d = (refl, tt)
insert_down-Distinct a (i ∷ is) h (k, d) = elim (Bool-cases (ltb a.importance i.importance)) [
  | inl e ↦ rw e (
    ground (arith, elem-insert_down i.kb_id a is, ==_iff a.kb_id i.kb_id, ==_iff i.kb_id a.kb_id),
    insert_down-Distinct a is (ground arith) d,
  )
  | inr e ↦ rw e (h, (k, d))
]

sort_down-Distinct :
    (is : List Info) → Distinct (names is) → Distinct (names (sort_down by_importance is))
unfolding sort_down
sort_down-Distinct [] d = d
sort_down-Distinct (i ∷ is) (h, d) =
    insert_down-Distinct i (sort_down by_importance is) (elem-sort_down i.kb_id is ∙ h)
      (sort_down-Distinct is d)

all_there-insert_down :
    (kbs : Dict String Base) (a : Info) (is : List Info)
    → has a.kb_id kbs ≡ true
    → all_there kbs is ≡ true
    → all_there kbs (insert_down by_importance a is) ≡ true
unfolding insert_down
all_there-insert_down kbs a [] h k = ground arith
all_there-insert_down kbs a (i ∷ is) h k = ground (arith, all_there-insert_down kbs a is)

all_there-sort_down :
    (kbs : Dict String Base) (is : List Info)
    → all_there kbs is ≡ true
    → all_there kbs (sort_down by_importance is) ≡ true
unfolding sort_down
all_there-sort_down kbs [] h = refl
all_there-sort_down kbs (i ∷ is) h =
    all_there-insert_down kbs i (sort_down by_importance is) (ground arith)
      (all_there-sort_down kbs is (ground arith))

module _ (world : World) (threshold : ℕ) where
  gather-there :
      (rows kbs : Dict String Base)
      → ((k : String) → has k rows ≡ true → has k kbs ≡ true)
      → all_there kbs (gather world threshold rows) ≡ true
  unfolding gather
  gather-there [] kbs h = refl
  gather-there ((k, b) ∷ rows) kbs h =
      let rest = gather-there rows kbs (λ j t. h j (ground arith)) in
      elim (Bool-cases b.is_archived) [
        | inl a ↦ rw (a, gather) rest
        | inr a ↦ elim (Option-cases (world.index_embedding b)) [
          | inl e ↦ rw (e, a, gather) rest
          | inr (v, e) ↦ rw (e, a, gather) (ground (arith, h k, ==_refl k))
        ]
      ]

  gather-fresh :
      (k : String) (rows : Dict String Base)
      → elem k (keys rows) ≡ false
      → elem k (names (gather world threshold rows)) ≡ false
  unfolding gather
  gather-fresh k [] h = refl
  gather-fresh k ((j, b) ∷ rows) h =
      let rest = gather-fresh k rows (ground arith) in
      elim (Bool-cases b.is_archived) [
        | inl a ↦ rw (a, gather) rest
        | inr a ↦ elim (Option-cases (world.index_embedding b)) [
          | inl e ↦ rw (e, a, gather) rest
          | inr (v, e) ↦ rw (e, a, gather) (ground arith)
        ]
      ]

  gather-Distinct :
      (rows : Dict String Base)
      → Distinct (keys rows)
      → Distinct (names (gather world threshold rows))
  unfolding gather
  gather-Distinct [] d = d
  gather-Distinct ((k, b) ∷ rows) (h, d) =
      let rest = gather-Distinct rows d in
      elim (Bool-cases b.is_archived) [
        | inl a ↦ rw (a, gather) rest
        | inr a ↦ elim (Option-cases (world.index_embedding b)) [
          | inl e ↦ rw (e, a, gather) rest
          | inr (v, e) ↦ rw (e, a, gather) (gather-fresh k rows h, rest)
        ]
      ]

  -- The consolidation of a registry whose ids are distinct loses and makes no active entry: for every text,
  -- all knowledge bases together hold as many active entries with it as before, whichever bases were
  -- near enough to be merged, and however their vectors changed with each merge. The bases with a
  -- vector are each kept or merged, and counted so. And it merges at least one, or, by falling
  -- importance, none of these bases is as near as the threshold to one in front of it.
  pub consolidate_kbs_lem :
      (c : String) (kbs : Dict String Base)
      → Distinct (keys kbs)
      → let (remaining, merged, after) = consolidate_kbs world threshold kbs in
        let info = gather world threshold kbs in
        (count_all c after ≡ count_all c kbs)
        × (length remaining + merged ≡ length info)
        × ((0 < merged) ⊎ (spread world threshold [] (sort_down by_importance info) ≡ true))
  unfolding consolidate_kbs
  consolidate_kbs_lem c kbs d =
      let info = gather world threshold kbs in
      let here = gather-there kbs kbs (λ k h. h) in
      let sorted = sort_down by_importance info in
      let indexed = index_all_lem info sorted kbs here (all_there-sort_down kbs info here) d in
      let tried = consolidate_loop-Tried world threshold sorted [] 0 (index_all info kbs) in
      (
        loop_lem world threshold c sorted [] 0 (index_all info kbs) (record {
          distinct = indexed.distinct;
          there_kept = refl;
          there_cands = indexed.there_js;
          apart_lists = refl;
          distinct_cands = sort_down-Distinct info (gather-Distinct kbs d);
        })
            ∙ indexed.counts c,
        omega (arith, tried.counted, sort_down-length by_importance info),
        tried.merges,
      )
