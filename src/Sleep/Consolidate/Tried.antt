-- ===== src/Sleep/Consolidate/Tried.antt =====
-- The loop of `consolidate_kbs`: what it counts, and that it does not pass over a near base.
use krakey_bot.Base.{
  ℕ, suc, ◌+◌, ◌<◌, ◌≤◌, ◌≡◌, refl, ◌⊎◌, String, Bool, true, not, ◌&&◌, List, [], ◌∷◌, ◌++◌, length,
  length-append, Option, none, some, leb, string_eq, arith, inl, inr, Option-cases, Bool-cases,
}
use krakey_bot.Base.Dict.{Dict}
use krakey_bot.Base.Sort.Descending.{sort_down, insert_down}
use krakey_bot.Sleep.{Base, base_of}
use krakey_bot.Sleep.Consolidate.{
  World, Info, move_entries, target_of, with_emb, merged_bases, consolidate_loop,
}

with_emb-length :
    (k : String) (v : Option ℕ) (ks : List Info) → length (with_emb k v ks) ≡ length ks
with_emb-length k none ks = refl
with_emb-length k (some v) [] = refl
with_emb-length k (some v) (i ∷ ks) = ground (arith, with_emb-length k (some v) ks)

insert_down-length :
    (key : Info → ℕ) (a : Info) (is : List Info) → length (insert_down key a is) ≡ suc (length is)
unfolding insert_down
insert_down-length key a [] = refl
insert_down-length key a (i ∷ is) = ground (arith, insert_down-length key a is)

pub sort_down-length : (key : Info → ℕ) (is : List Info) → length (sort_down key is) ≡ length is
unfolding sort_down
sort_down-length key [] = refl
sort_down-length key (i ∷ is) =
    omega (arith, insert_down-length key i (sort_down key is), sort_down-length key is)

module _ (world : World) (threshold : ℕ) where
  -- The base is near to none of these.
  abbrev pub all_far : Info → List Info → Bool
  all_far c [] = true
  all_far c (k ∷ ks) = not (leb threshold (world.cosine_similarity c.emb k.emb)) && all_far c ks

  -- Each base is near to none of those in front of it, and to none of `front`.
  abbrev pub spread : List Info → List Info → Bool
  spread front [] = true
  spread front (c ∷ cs) = all_far c front && spread (front ++ c ∷ []) cs

  target_of-none :
      (c : Info) (ks : List Info) → target_of world threshold c ks ≡ none → all_far c ks ≡ true
  target_of-none c [] h = refl
  target_of-none c (k ∷ ks) h =
      elim (Bool-cases (leb threshold (world.cosine_similarity c.emb k.emb))) [
        | inl e ↦ absurd (cc (rw e at h))
        | inr e ↦ rw e (target_of-none c ks (rw e at h))
      ]

  -- From the count `m` on.
  pub record Tried (cands kept : List Info) (m : ℕ) (r : List Info × ℕ × Dict String Base)
      : Type 0 where
    pub counted : length r.0 + r.1 ≡ length cands + (length kept + m)
    pub grows : m ≤ r.1
    pub merges : (m < r.1) ⊎ (spread kept cands ≡ true)

  pub consolidate_loop-Tried :
      (cands kept : List Info) (m : ℕ) (kbs : Dict String Base)
      → Tried cands kept m (consolidate_loop world threshold cands kept m kbs)
  unfolding consolidate_loop
  consolidate_loop-Tried [] kept m kbs = record {
    counted = omega arith;
    grows = omega arith;
    merges = inr refl;
  }
  consolidate_loop-Tried (c ∷ cs) kept m kbs =
      elim (Option-cases (target_of world threshold c kept)) [
        | inl e ↦
            let rest = consolidate_loop-Tried cs (kept ++ c ∷ []) m kbs in
            let far = target_of-none c kept e in
            rw (e, consolidate_loop)
              (record {
                counted = omega (arith, rest.counted, length-append kept (c ∷ []));
                grows = rest.grows;
                merges = elim rest.merges [ inl a ↦ inl a | inr a ↦ inr (rw far a) ];
              })
        | inr (target, e) ↦
            let v =
              world.index_embedding
                (move_entries (base_of c.kb_id kbs).entries (base_of target.kb_id kbs)) in
            let rest =
              consolidate_loop-Tried cs (with_emb target.kb_id v kept) (suc m)
                (merged_bases c target kbs) in
            rw (e, consolidate_loop)
              (record {
                counted = omega (arith, rest.counted, with_emb-length target.kb_id v kept);
                grows = omega (arith, rest.grows);
                merges = inl (omega (arith, rest.grows));
              })
      ]
