-- ===== src/Sleep/Entered.antt =====
-- A node that is migrated has its entry in the knowledge base.
use krakey_bot.Base.{
  ℕ, ◌≡◌, sym, ◌∙◌, String, Bool, true, false, ◌||◌, List, [], ◌∷◌, ◌==◌, ==_refl, string_eq,
  nat_eq, arith, inl, inr, Bool-cases, Option-cases,
}
use krakey_bot.Base.Text.{decimal, concat}
use krakey_bot.Base.Action.{Outcome, Outcome-cases, returned, raised}
use krakey_bot.MemoryGraph.Storage.{Node}
use krakey_bot.Sleep.{
  Error, Entry, Base, has_entry, write_entry, merge_entry, World, Progress, base_of, change_base,
  content_of, tags_of, nth, write_fresh, merge_into, dedup_or_write,
}
use krakey_bot.Sleep.Grown.{
  Grows, Grows-refl, has_entry-append, has_entry-fold, base_of-put, change_base-Grows,
}

-- A node goes to an entry of the base, unless something raises.
pub record Goes (k : String) (p : Progress) (r : Outcome Error (ℕ × Bool) × Progress) : Type 0 where
  pub grows : Grows p r.1
  pub there :
      (id : ℕ) (m : Bool)
      → r.0 ≡ returned (id, m)
      → has_entry id (base_of k r.1.bases).entries ≡ true

raises-Goes : (k : String) (x : Error) (p : Progress) → Goes k p (raised x, p)
raises-Goes k x p = record { grows = Grows-refl p; there = λ id m h. cc }

changed-Goes :
    (k : String) (b : Base) (p : Progress) (id : ℕ) (m : Bool)
    → ((e : ℕ) → has_entry e (base_of k p.bases).entries ≡ true → has_entry e b.entries ≡ true)
    → has_entry id b.entries ≡ true
    → Goes k p (returned (id, m), change_base k b p)
changed-Goes k b p id m more h = record {
  grows = change_base-Grows k b p more;
  there = λ i n r. let same : id ≡ i = cc in rw (base_of-put k k b p.bases, ==_refl k, sym same) h;
}

has_entry-write_entry :
    (c source : String) (ts : List String) (n : ℕ) (b : Base) (id : ℕ)
    → has_entry id (write_entry c source ts n b).1.entries
      ≡ (has_entry id b.entries || b.next_id == id)
unfolding write_entry
has_entry-write_entry c source ts n b id = has_entry-append b.entries _ id

write_fresh-Goes : (k : String) (n : Node) (p : Progress) → Goes k p (write_fresh k n p)
unfolding write_fresh write_entry
write_fresh-Goes k n p =
    let b = base_of k p.bases in
    let grown =
      has_entry-write_entry (content_of n) (concat ("gm_node:" ∷ decimal n.id ∷ [])) (tags_of n)
        n.importance b in
    changed-Goes k _ p b.next_id false (λ e h. grown e ∙ or_left _ _ h)
      (grown b.next_id ∙ or_right _ _ (==_refl b.next_id))
  where
    or_left : (a c : Bool) → a ≡ true → (a || c) ≡ true
    or_left a c h = ground arith

    or_right : (a c : Bool) → c ≡ true → (a || c) ≡ true
    or_right a c h = ground arith

merge_into-Goes : (k : String) (n : Node) (e : Entry) (p : Progress) → Goes k p (merge_into k n e p)
unfolding merge_into merge_entry
merge_into-Goes k n e p = elim (Bool-cases (has_entry e.id (base_of k p.bases).entries)) [
  | inr h ↦ rw (h, merge_into, merge_entry) (raises-Goes k Error.key_error p)
  | inl h ↦
      let kept =
        has_entry-fold e.id (content_of n) n.importance (tags_of n) (base_of k p.bases).entries in
      rw (h, merge_into, merge_entry)
        (changed-Goes k _ p e.id true (λ i t. rw (kept i) t) (rw (kept e.id) h))
]

pub dedup_or_write-Goes :
    (world : World) (threshold : ℕ) (k : String) (n : Node) (p : Progress)
    → Goes k p (dedup_or_write world threshold k n p)
unfolding dedup_or_write
dedup_or_write-Goes world threshold k n p =
    elim (Outcome-cases (world.candidates n (base_of k p.bases).entries)) [
      | inl (x, e) ↦ rw (e, dedup_or_write) (raises-Goes k x p)
      | inr (ordered, e) ↦ elim (Option-cases (world.pick_same n ordered)) [
        | inl f ↦ rw (e, f, dedup_or_write) (write_fresh-Goes k n p)
        | inr (i, f) ↦ elim (Option-cases (nth ordered i)) [
          | inl g ↦ rw (e, f, g, dedup_or_write) (write_fresh-Goes k n p)
          | inr (c, g) ↦ rw (e, f, g, dedup_or_write) (merge_into-Goes k n c p)
        ]
      ]
    ]
