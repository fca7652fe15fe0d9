-- ===== src/Sleep/Consolidate/Counts.antt =====
-- The entries with a given content, as knowledge bases are stored, dropped and merged.
use krakey_bot.Base.{
  ℕ, ◌+◌, ◌≡◌, refl, sym, ap, ◌∙◌, String, Bool, true, false, ◌&&◌, List, [], ◌∷◌, ◌++◌, Distinct,
  if◌then◌else◌, ◌==◌, ==_iff, string_eq, nat_eq, arith, inl, inr, Bool-cases,
}
use krakey_bot.Base.Dict.{Dict, put, pop, has, keys, has-pop, elem-keys}
use krakey_bot.Sleep.{Entry, Base, base_of, write_entry}
use krakey_bot.Sleep.Consolidate.{move_entries}

-- The active entries with a content, of a base and of all bases.
abbrev pub count : String → List Entry → ℕ
count c [] = 0
count c (e ∷ es) = (if e.is_active && e.content == c then 1 else 0) + count c es

abbrev pub count_all : String → Dict String Base → ℕ
count_all c [] = 0
count_all c ((k, b) ∷ kbs) = count c b.entries + count_all c kbs

count-append : (c : String) (es fs : List Entry) → count c (es ++ fs) ≡ count c es + count c fs
count-append c [] fs = omega arith
count-append c (e ∷ es) fs = omega (arith, count-append c es fs)

pub count-move_entries :
    (c : String) (es : List Entry) (b : Base)
    → count c (move_entries es b).entries ≡ count c b.entries + count c es
unfolding move_entries write_entry
count-move_entries c [] b = omega arith
count-move_entries c (e ∷ es) b = elim (Bool-cases e.is_active) [
  | inl h ↦
      rw (h, move_entries)
        (omega (
          arith,
          count-move_entries c es (write_entry e.content e.source e.tags e.importance b).1,
          count-append c b.entries (
              record {
                id = b.next_id;
                content = e.content;
                source = e.source;
                tags = e.tags;
                importance = e.importance;
                is_active = true;
              }
              ∷ []),
        ))
  | inr h ↦ rw (h, move_entries) (omega (arith, count-move_entries c es b))
]

base_of-cons :
    (k j : String) (a : Base) (kbs : Dict String Base)
    → base_of k ((j, a) ∷ kbs) ≡ (if j == k then a else base_of k kbs)
base_of-cons k j a kbs = ground arith

module _ (c : String) (k : String) where
  abbrev pub there : Dict String Base → ℕ
  there kbs = count c (base_of k kbs).entries

  there-same :
      (j : String) (a : Base) (kbs : Dict String Base)
      → (j == k) ≡ true
      → there ((j, a) ∷ kbs) ≡ count c a.entries
  there-same j a kbs e = ap (λ b. count c b.entries) {y = a} (base_of-cons k j a kbs ∙ rw e refl)

  there-other :
      (j : String) (a : Base) (kbs : Dict String Base)
      → (j == k) ≡ false
      → there ((j, a) ∷ kbs) ≡ there kbs
  there-other j a kbs e =
      ap (λ b. count c b.entries) {y = base_of k kbs} (base_of-cons k j a kbs ∙ rw e refl)

  pub count_all-put :
      (b : Base) (kbs : Dict String Base)
      → has k kbs ≡ true
      → count_all c (put k b kbs) + count c (base_of k kbs).entries
        ≡ count_all c kbs + count c b.entries
  count_all-put b [] h = absurd (cc)
  count_all-put b ((j, a) ∷ kbs) h = elim (Bool-cases (j == k)) [
    | inl e ↦ rw e (omega (arith, there-same j a kbs e))
    | inr e ↦ rw e (omega (arith, there-other j a kbs e, count_all-put b kbs (rw e at h)))
  ]

  pop_of-none : (kbs : Dict String Base) → has k kbs ≡ false → pop k kbs ≡ kbs
  pop_of-none [] h = refl
  pop_of-none ((j, a) ∷ kbs) h = ground (arith, pop_of-none kbs)

  pub count_all-pop :
      (kbs : Dict String Base)
      → Distinct (keys kbs)
      → has k kbs ≡ true
      → count_all c (pop k kbs) + count c (base_of k kbs).entries ≡ count_all c kbs
  count_all-pop [] d h = absurd (cc)
  count_all-pop ((j, a) ∷ kbs) (free, d) h = elim (Bool-cases (j == k)) [
    | inl e ↦
        rw (e, pop_of-none kbs (sym (elem-keys k kbs) ∙ rw ((==_iff j k).0 e) at free))
          (omega (arith, there-same j a kbs e))
    | inr e ↦ rw e (omega (arith, there-other j a kbs e, count_all-pop kbs d (rw e at h)))
  ]

pub pop-Distinct :
    (k : String) (kbs : Dict String Base) → Distinct (keys kbs) → Distinct (keys (pop k kbs))
pop-Distinct k [] d = d
pop-Distinct k ((j, a) ∷ kbs) (free, d) = elim (Bool-cases (j == k)) [
  | inl e ↦ rw e (pop-Distinct k kbs d)
  | inr e ↦ rw e (
    elem-keys j (pop k kbs) ∙ (has-pop k j kbs ∙ gone (k == j) (sym (elem-keys j kbs) ∙ free)),
    pop-Distinct k kbs d,
  )
]
  where
    gone : (b : Bool) → has j kbs ≡ false → (if b then false else has j kbs) ≡ false
    gone true h = refl
    gone false h = h
