-- ===== src/Sleep/Grown.antt =====
-- The first pass of migration.py loses no entry of a knowledge base.
use krakey_bot.Base.{
  ℕ, ◌≡◌, refl, sym, ◌∙◌, String, true, false, ◌||◌, List, [], ◌∷◌, ◌++◌, none, some, if◌then◌else◌,
  ◌==◌, ==_iff, ==_refl, string_eq, nat_eq, arith, inl, inr, Bool-cases, Option-cases,
}
use krakey_bot.Base.Text.{decimal, concat}
use krakey_bot.Base.Action.{Outcome, returned}
use krakey_bot.Base.Dict.{Dict, get, put, has, get-put}
use krakey_bot.Sleep.{
  Error, Entry, Base, empty_base, has_entry, fold_entry, World, Progress, base_of, change_base,
  find_or_create, find_revive_target, kb_for,
}

-- From `p` to `q` the knowledge bases grew, and nothing else was counted or placed.
pub record Grows (p q : Progress) : Type 0 where
  pub communities :
      (c : ℕ) (k : String) → get c p.community_kbs ≡ some k → get c q.community_kbs ≡ some k
  pub entries :
      (k : String) (e : ℕ)
      → has_entry e (base_of k p.bases).entries ≡ true
      → has_entry e (base_of k q.bases).entries ≡ true
  pub placed : q.gm_to_kb_entry ≡ p.gm_to_kb_entry
  pub migrated : q.migrated_nodes ≡ p.migrated_nodes
  pub merged : q.merged_entries ≡ p.merged_entries
  pub no_community : q.skipped_no_community ≡ p.skipped_no_community
  pub small : q.skipped_small_community ≡ p.skipped_small_community

pub Grows-refl : (p : Progress) → Grows p p
Grows-refl p = record {
  communities = λ c k h. h;
  entries = λ k e h. h;
  placed = refl;
  migrated = refl;
  merged = refl;
  no_community = refl;
  small = refl;
}

pub Grows-trans : {p q r : Progress} → Grows p q → Grows q r → Grows p r
Grows-trans g h = record {
  communities = λ c k t. h.communities c k (g.communities c k t);
  entries = λ k e t. h.entries k e (g.entries k e t);
  placed = h.placed ∙ g.placed;
  migrated = h.migrated ∙ g.migrated;
  merged = h.merged ∙ g.merged;
  no_community = h.no_community ∙ g.no_community;
  small = h.small ∙ g.small;
}

pub has_entry-append :
    (es : List Entry) (x : Entry) (id : ℕ)
    → has_entry id (es ++ x ∷ []) ≡ (has_entry id es || x.id == id)
has_entry-append [] x id = ground arith
has_entry-append (e ∷ es) x id = ground (arith, has_entry-append es x id)

pub has_entry-fold :
    (i : ℕ) (c : String) (n : ℕ) (ts : List String) (es : List Entry) (id : ℕ)
    → has_entry id (fold_entry i c n ts es) ≡ has_entry id es
has_entry-fold i c n ts [] id = refl
has_entry-fold i c n ts (e ∷ es) id = ground (arith, has_entry-fold i c n ts es id)

pub base_of-put :
    (k j : String) (b : Base) (kbs : Dict String Base)
    → base_of j (put k b kbs) ≡ (if k == j then b else base_of j kbs)
base_of-put k j b kbs = ground (arith, get-put k j b kbs)

-- Changing a base to one with more entries.
pub change_base-Grows :
    (k : String) (b : Base) (p : Progress)
    → ((e : ℕ) → has_entry e (base_of k p.bases).entries ≡ true → has_entry e b.entries ≡ true)
    → Grows p (change_base k b p)
change_base-Grows k b p more = record {
  communities = λ c j h. h;
  entries = λ j e h. grown j e h;
  placed = refl;
  migrated = refl;
  merged = refl;
  no_community = refl;
  small = refl;
}
  where
    grown :
        (j : String) (e : ℕ)
        → has_entry e (base_of j p.bases).entries ≡ true
        → has_entry e (base_of j (put k b p.bases)).entries ≡ true
    grown j e h = elim (Bool-cases (k == j)) [
      | inl same ↦
          rw (base_of-put k j b p.bases, same) (more e (rw (sym ((==_iff k j).0 same)) at h))
      | inr other ↦ rw (base_of-put k j b p.bases, other) h
    ]

-- A community's base is found, or made.
pub record Found (c : ℕ) (p : Progress) (r : Outcome Error String × Progress) : Type 0 where
  pub kb_id : String
  pub returns : r.0 ≡ returned kb_id
  pub grows : Grows p r.1
  pub at : get c r.1.community_kbs ≡ some kb_id

-- Naming the base of a community that has none yet.
new_community-Grows :
    (c : ℕ) (k : String) (p q : Progress)
    → get c p.community_kbs ≡ none
    → ((j : String) (e : ℕ)
        → has_entry e (base_of j p.bases).entries ≡ true
        → has_entry e (base_of j q.bases).entries ≡ true)
    → q.community_kbs ≡ put c k p.community_kbs
    → q.gm_to_kb_entry ≡ p.gm_to_kb_entry
    → q.migrated_nodes ≡ p.migrated_nodes
    → q.merged_entries ≡ p.merged_entries
    → q.skipped_no_community ≡ p.skipped_no_community
    → q.skipped_small_community ≡ p.skipped_small_community
    → Grows p q
new_community-Grows c k p q free entries names h1 h2 h3 h4 h5 = record {
  communities = λ d j h. rw names (kept d j h);
  entries = entries;
  placed = h1;
  migrated = h2;
  merged = h3;
  no_community = h4;
  small = h5;
}
  where
    kept :
        (d : ℕ) (j : String)
        → get d p.community_kbs ≡ some j
        → get d (put c k p.community_kbs) ≡ some j
    kept d j h = ground (arith, get-put c d k p.community_kbs, h, free, ==_iff c d)

base_of-none :
    (k : String) (kbs : Dict String Base) → has k kbs ≡ false → base_of k kbs ≡ empty_base
base_of-none k [] h = refl
base_of-none k ((j, b) ∷ kbs) h = ground (arith, base_of-none k kbs)

named : (c : ℕ) (k : String) (names : Dict ℕ String) → get c (put c k names) ≡ some k
named c k names = ground (arith, get-put c c k names, ==_refl c)

module _ (world : World) (threshold : ℕ) where
  find_or_create_lem :
      (c : ℕ) (p : Progress)
      → get c p.community_kbs ≡ none
      → Found c p (find_or_create world threshold c p)
  unfolding find_or_create
  find_or_create_lem c p free = elim (Option-cases (find_revive_target world threshold c p.bases)) [
    | inr (k, e) ↦
        rw (e, find_or_create)
          (record {
            kb_id = k;
            returns = refl;
            grows =
                new_community-Grows c k p _ free (change_base-Grows k _ p (λ i h. h)).entries refl
                  refl refl refl refl refl;
            at = named c k p.community_kbs;
          })
    | inl e ↦
        let k = concat ("community_" ∷ decimal c ∷ []) in
        elim (Bool-cases (has k p.bases)) [
          | inl h ↦
              rw (e, find_or_create, h)
                (record {
                  kb_id = k;
                  returns = refl;
                  grows =
                      new_community-Grows c k p _ free (λ j i t. t) refl refl refl refl refl refl;
                  at = named c k p.community_kbs;
                })
          | inr h ↦
              rw (e, find_or_create, h)
                (record {
                  kb_id = k;
                  returns = refl;
                  grows =
                      new_community-Grows c k p _ free
                        (change_base-Grows k empty_base p
                          (λ i t. rw (base_of-none k p.bases h) at t)).entries
                        refl refl refl refl refl refl;
                  at = named c k p.community_kbs;
                })
        ]
  ]

  pub kb_for_lem : (c : ℕ) (p : Progress) → Found c p (kb_for world threshold c p)
  unfolding kb_for
  kb_for_lem c p = elim (Option-cases (get c p.community_kbs)) [
    | inl e ↦ rw (e, kb_for) (find_or_create_lem c p e)
    | inr (k, e) ↦
        rw (e, kb_for) (record { kb_id = k; returns = refl; grows = Grows-refl p; at = e })
  ]
