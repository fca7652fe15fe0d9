-- ===== src/Sleep/Consolidate.antt =====
-- engines/memory/_internal/sleep/kb_lifecycle.py, `consolidate_kbs`. A vector is known by a number; the
-- vector and the importance of a base are functions of it.
pub mod Counts
pub mod Merges
pub mod Tried
pub mod Conserved
use krakey_bot.Base.{
  ℕ, suc, ◌+◌, String, Bool, true, false, not, ◌&&◌, List, [], ◌∷◌, ◌++◌, Option, none, some,
  if◌then◌else◌, leb, ltb, ◌==◌, string_eq, nat_eq,
}
use krakey_bot.Base.Sort.Descending.{sort_down}
use krakey_bot.Base.Dict.{Dict, get, put, pop}
use krakey_bot.Sleep.{Entry, Base, base_of, write_entry}

pub record World : Type 0 where
  pub index_embedding : Base → Option ℕ
  pub importance : Base → ℕ
  pub cosine_similarity : ℕ → ℕ → ℕ

pub record Info : Type 0 where
  pub kb_id : String
  pub emb : ℕ
  pub importance : ℕ

-- `WHERE is_active = 1`: only these are copied. The copies get ids of their own.
unfoldable pub move_entries : List Entry → Base → Base
unfolding write_entry
move_entries [] dst = dst
move_entries (e ∷ es) dst =
    let copied = move_entries es (write_entry e.content e.source e.tags e.importance dst).1 in
    let rest = move_entries es dst in if e.is_active then copied else rest

-- `set_index_embedding` of these bases.
unfoldable pub index_all : List Info → Dict String Base → Dict String Base
index_all [] kbs = kbs
index_all (i ∷ is) kbs =
    index_all is (put i.kb_id (record (base_of i.kb_id kbs) { has_index = true }) kbs)

abbrev pub with_emb : String → Option ℕ → List Info → List Info
with_emb kb_id none ks = ks
with_emb kb_id (some v) [] = []
with_emb kb_id (some v) (k ∷ ks) =
    (if k.kb_id == kb_id then record k { emb = v } else k) ∷ with_emb kb_id (some v) ks

abbrev pub merged_bases : Info → Info → Dict String Base → Dict String Base
unfolding move_entries
merged_bases cand target kbs =
    let b = move_entries (base_of cand.kb_id kbs).entries (base_of target.kb_id kbs) in
    pop cand.kb_id (put target.kb_id (record b { has_index = true }) kbs)

module _ (world : World) (threshold : ℕ) where
  -- The active bases that have a vector, in the registry's order, of the rows `rows`.
  unfoldable pub gather : Dict String Base → List Info
  gather [] = []
  gather ((k, b) ∷ rows) =
      let rest = gather rows in
      if b.is_archived then rest else elim (world.index_embedding b) [
        | none ↦ rest
        | some v ↦ record { kb_id = k; emb = v; importance = world.importance b } ∷ rest
      ]

  -- The first of the kept bases that is near enough.
  abbrev pub target_of : Info → List Info → Option Info
  target_of cand [] = none
  target_of cand (k ∷ ks) =
      if leb threshold (world.cosine_similarity cand.emb k.emb) then some k else target_of cand ks

  -- The loop over the candidates: the kept, the number of merged, and the bases.
  unfoldable pub consolidate_loop :
      List Info → List Info → ℕ → Dict String Base → List Info × ℕ × Dict String Base
  unfolding merged_bases
  consolidate_loop [] kept merged kbs = (kept, merged, kbs)
  consolidate_loop (cand ∷ cands) kept merged kbs = elim (target_of cand kept) [
    | none ↦ consolidate_loop cands (kept ++ cand ∷ []) merged kbs
    | some target ↦
        let b = move_entries (base_of cand.kb_id kbs).entries (base_of target.kb_id kbs) in
        consolidate_loop cands (with_emb target.kb_id (world.index_embedding b) kept) (suc merged)
          (merged_bases cand target kbs)
  ]

  unfoldable pub consolidate_kbs : Dict String Base → List Info × ℕ × Dict String Base
  unfolding consolidate_loop gather index_all
  consolidate_kbs kbs =
      let info = gather kbs in
      consolidate_loop (sort_down (λ i. i.importance) info) [] 0 (index_all info kbs)
