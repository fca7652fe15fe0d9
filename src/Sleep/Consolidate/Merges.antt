-- ===== src/Sleep/Consolidate/Merges.antt =====
-- The loop of `consolidate_kbs` moves the active entries of the knowledge bases and loses none of them.
use krakey_bot.Base.{
  ℕ, suc, ◌≡◌, refl, sym, ap, ◌∙◌, String, Bool, true, false, not, ◌&&◌, List, [], ◌∷◌, ◌++◌,
  Option, none, some, elem, Distinct, leb, ◌==◌, ==_iff, string_eq, nat_eq, arith, inl, inr,
  Bool-cases, Option-cases,
}
use krakey_bot.Base.Dict.{Dict, put, pop, has, keys, has-put, has-pop, put-Distinct}
use krakey_bot.Sleep.{Base, base_of}
use krakey_bot.Sleep.Grown.{base_of-put}
use krakey_bot.Sleep.Consolidate.{
  World, Info, move_entries, target_of, with_emb, merged_bases, consolidate_loop,
}
use krakey_bot.Sleep.Consolidate.Counts.{
  count, count_all, count-move_entries, there, count_all-put, count_all-pop, pop-Distinct,
}

abbrev pub names : List Info → List String
names [] = []
names (i ∷ is) = i.kb_id ∷ names is

abbrev pub all_there : Dict String Base → List Info → Bool
all_there kbs [] = true
all_there kbs (i ∷ is) = has i.kb_id kbs && all_there kbs is

-- No kept base is still to come.
abbrev pub apart : List Info → List Info → Bool
apart [] cands = true
apart (k ∷ ks) cands = not (elem k.kb_id (names cands)) && apart ks cands

-- The two bases of a merge are there, and are different.
module _ (c : String) (cand target : Info) (kbs : Dict String Base) where
  merged-count :
      Distinct (keys kbs)
      → has cand.kb_id kbs ≡ true
      → has target.kb_id kbs ≡ true
      → (target.kb_id == cand.kb_id) ≡ false
      → count_all c (merged_bases cand target kbs) ≡ count_all c kbs
  unfolding merged_bases
  merged-count d hc ht other =
      let src = base_of cand.kb_id kbs in
      let dst = base_of target.kb_id kbs in
      let b : Base = record (move_entries src.entries dst) { has_index = true } in
      let kbs' = put target.kb_id b kbs in
      let src_same : there c cand.kb_id kbs' ≡ count c src.entries =
        ap (λ b. count c b.entries) {y = src}
          (base_of-put target.kb_id cand.kb_id b kbs ∙ rw other refl) in
      omega (
        arith,
        count_all-put c target.kb_id b kbs ht,
        count-move_entries c src.entries dst,
        count_all-pop c cand.kb_id kbs' (put-Distinct target.kb_id b kbs d)
            (has-put target.kb_id cand.kb_id b kbs ∙ rw (other, hc) refl),
        src_same,
      )

-- What the loop over the candidates keeps true.
pub record Fits (kept cands : List Info) (kbs : Dict String Base) : Type 0 where
  pub distinct : Distinct (keys kbs)
  pub there_kept : all_there kbs kept ≡ true
  pub there_cands : all_there kbs cands ≡ true
  pub apart_lists : apart kept cands ≡ true
  pub distinct_cands : Distinct (names cands)

all_there-append :
    (kbs : Dict String Base) (is : List Info) (i : Info)
    → all_there kbs is ≡ true
    → has i.kb_id kbs ≡ true
    → all_there kbs (is ++ i ∷ []) ≡ true
all_there-append kbs [] i h k = ground arith
all_there-append kbs (j ∷ is) i h k = ground (arith, all_there-append kbs is i)

apart-append :
    (ks cands : List Info) (i : Info)
    → apart ks (i ∷ cands) ≡ true
    → elem i.kb_id (names cands) ≡ false
    → apart (ks ++ i ∷ []) cands ≡ true
apart-append [] cands i h k = ground arith
apart-append (j ∷ ks) cands i h k = ground (arith, apart-append ks cands i)

apart-tail : (ks cands : List Info) (i : Info) → apart ks (i ∷ cands) ≡ true → apart ks cands ≡ true
apart-tail [] cands i h = refl
apart-tail (j ∷ ks) cands i h = ground (arith, apart-tail ks cands i)

-- Vectors are put in place without a change of the ids.
with_emb-names : (k : String) (v : Option ℕ) (ks : List Info) → names (with_emb k v ks) ≡ names ks
with_emb-names k none ks = refl
with_emb-names k (some v) [] = refl
with_emb-names k (some v) (i ∷ ks) = ground (arith, with_emb-names k (some v) ks)

all_there-names :
    (kbs : Dict String Base) (is js : List Info)
    → names is ≡ names js
    → all_there kbs is ≡ all_there kbs js
all_there-names kbs [] [] h = refl
all_there-names kbs [] (j ∷ js) h = absurd (cc)
all_there-names kbs (i ∷ is) [] h = absurd (cc)
all_there-names kbs (i ∷ is) (j ∷ js) h =
    let same : i.kb_id ≡ j.kb_id = cc in
    let rest : names is ≡ names js = cc in rw (same, all_there-names kbs is js rest) refl

apart-names : (is js cands : List Info) → names is ≡ names js → apart is cands ≡ apart js cands
apart-names [] [] cands h = refl
apart-names [] (j ∷ js) cands h = absurd (cc)
apart-names (i ∷ is) [] cands h = absurd (cc)
apart-names (i ∷ is) (j ∷ js) cands h =
    let same : i.kb_id ≡ j.kb_id = cc in
    let rest : names is ≡ names js = cc in rw (same, apart-names is js cands rest) refl

-- A merge leaves the other bases in place.
all_there-pop-put :
    (k t : String) (b : Base) (kbs : Dict String Base) (is : List Info)
    → elem k (names is) ≡ false
    → all_there kbs is ≡ true
    → all_there (pop k (put t b kbs)) is ≡ true
all_there-pop-put k t b kbs [] h j = refl
all_there-pop-put k t b kbs (i ∷ is) h j = ground (
  arith,
  all_there-pop-put k t b kbs is,
  has-pop k i.kb_id (put t b kbs),
  has-put t i.kb_id b kbs,
  ==_iff i.kb_id k,
  ==_iff k i.kb_id,
)

apart-elem :
    (ks cands : List Info) (i : Info)
    → apart ks (i ∷ cands) ≡ true
    → elem i.kb_id (names ks) ≡ false
apart-elem [] cands i h = refl
apart-elem (k ∷ ks) cands i h =
    ground (arith, apart-elem ks cands i, ==_iff i.kb_id k.kb_id, ==_iff k.kb_id i.kb_id)

module _ (world : World) (threshold : ℕ) where
  target_lem :
      (cand target : Info) (ks : List Info) (kbs : Dict String Base) (cands : List Info)
      → target_of world threshold cand ks ≡ some target
      → all_there kbs ks ≡ true
      → apart ks (cand ∷ cands) ≡ true
      → (has target.kb_id kbs ≡ true) × ((target.kb_id == cand.kb_id) ≡ false)
  target_lem cand target [] kbs cands e h k = absurd (cc)
  target_lem cand target (i ∷ ks) kbs cands e h k =
      elim (Bool-cases (leb threshold (world.cosine_similarity cand.emb i.emb))) [
        | inl n ↦
            let found : ◌≡◌ {A = Option Info} (some i) (some target) = rw n at e in
            let same : i.kb_id ≡ target.kb_id = cc in
            (
              rw (sym same) (ground arith),
              rw (sym same) (ground (arith, ==_iff i.kb_id cand.kb_id, ==_iff cand.kb_id i.kb_id)),
            )
        | inr n ↦ target_lem cand target ks kbs cands (rw n at e) (ground arith) (ground arith)
      ]

  pub loop_lem :
      (c : String) (cands kept : List Info) (m : ℕ) (kbs : Dict String Base)
      → Fits kept cands kbs
      → count_all c (consolidate_loop world threshold cands kept m kbs).2 ≡ count_all c kbs
  unfolding consolidate_loop merged_bases
  loop_lem c [] kept m kbs f = refl
  loop_lem c (cand ∷ cands) kept m kbs f =
      elim (Option-cases (target_of world threshold cand kept)) [
        | inl e ↦
            rw (e, consolidate_loop)
              (loop_lem c cands (kept ++ cand ∷ []) m kbs (record {
                distinct = f.distinct;
                there_kept =
                    all_there-append kbs kept cand f.there_kept (ground (arith, f.there_cands));
                there_cands = ground (arith, f.there_cands);
                apart_lists = apart-append kept cands cand f.apart_lists f.distinct_cands.0;
                distinct_cands = f.distinct_cands.1;
              }))
        | inr (target, e) ↦
            let (there, other) =
              target_lem cand target kept kbs cands e f.there_kept f.apart_lists in
            let v =
              world.index_embedding
                (move_entries (base_of cand.kb_id kbs).entries (base_of target.kb_id kbs)) in
            let same = with_emb-names target.kb_id v kept in
            let after = merged_bases cand target kbs in
            rw (e, consolidate_loop)
              (loop_lem c cands (with_emb target.kb_id v kept) (suc m) after (record {
                distinct = pop-Distinct cand.kb_id _ (put-Distinct target.kb_id _ kbs f.distinct);
                there_kept =
                    all_there-names after (with_emb target.kb_id v kept) kept same
                    ∙ all_there-pop-put cand.kb_id target.kb_id _ kbs kept
                        (apart-elem kept cands cand f.apart_lists) f.there_kept;
                there_cands =
                    all_there-pop-put cand.kb_id target.kb_id _ kbs cands f.distinct_cands.0
                      (ground (arith, f.there_cands));
                apart_lists =
                    apart-names (with_emb target.kb_id v kept) kept cands same
                    ∙ apart-tail kept cands cand f.apart_lists;
                distinct_cands = f.distinct_cands.1;
              })
                ∙ merged-count c cand target kbs f.distinct (ground (arith, f.there_cands)) there
                    other)
      ]
