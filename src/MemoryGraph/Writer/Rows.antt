-- ===== src/MemoryGraph/Writer/Rows.antt =====
-- The rows that an extraction is to have, and what an upsert does to the rows.
use krakey_bot.Base.{
  ℕ, ◌≡◌, refl, ap, ◌∙◌, ◌⊎◌, String, Bool, true, false, not, ◌&&◌, ◌||◌, List, [], ◌∷◌, Option,
  none, some, any, any-append, if◌then◌else◌, ◌==◌, ==_refl, ==_iff, string_eq, nat_eq, arith, inl,
  inr, Bool-cases, Option-cases,
}
use krakey_bot.Base.Action.{Outcome, returned, raised}
use krakey_bot.Base.Dict.{Dict, has}
use krakey_bot.MemoryGraph.Storage.{
  Node, Error, integrity_error, Graph, NewNode, has_id, is_named, first, rewrite, refresh,
  is_category, insert_node, upsert_node,
}
use krakey_bot.MemoryGraph.Writer.{ExtractedNode, default}

-- A dict with a name and a category, and one whose category the table takes.
abbrev pub is_given : ExtractedNode → Bool
is_given n = not (default "" n.name == "" || default "" n.category == "")

abbrev pub is_valid : ExtractedNode → Bool
is_valid n = is_given n && is_category (default "" n.category)

-- The row `id` has a name, and a category.
abbrev pub row_of : ℕ → String → Node → Bool
row_of id name r = r.id == id && r.name == name

abbrev pub row_in : ℕ → String → String → Node → Bool
row_in id name category r = r.id == id && is_named name category r

-- Each valid node has a row with its name and its category.
abbrev pub all_stored : List Node → List ExtractedNode → Bool
all_stored rows [] = true
all_stored rows (n ∷ ns) =
    (if is_valid n then any (is_named (default "" n.name) (default "" n.category)) rows else true)
    && all_stored rows ns

-- Each valid node's name is a key.
abbrev pub all_named : Dict String ℕ → List ExtractedNode → Bool
all_named names [] = true
all_named names (n ∷ ns) =
    (if is_valid n then has (default "" n.name) names else true) && all_named names ns

-- Each key is the name of the row that it stands for.
abbrev pub all_rows : List Node → Dict String ℕ → Bool
all_rows rows [] = true
all_rows rows ((name, id) ∷ names) = any (row_of id name) rows && all_rows rows names

-- What an upsert does not change in a row.
abbrev pub Fixed : (Node → Bool) → Type 0
Fixed P = (d : Option String) (n : Node) → P (refresh d n) ≡ P n

pub Fixed-row_of : (id : ℕ) (name : String) → Fixed (row_of id name)
Fixed-row_of id name none n = refl
Fixed-row_of id name (some d) n = refl

Fixed-row_in : (id : ℕ) (name category : String) → Fixed (row_in id name category)
Fixed-row_in id name category none n = refl
Fixed-row_in id name category (some d) n = refl

pub Fixed-is_named : (name category : String) → Fixed (is_named name category)
Fixed-is_named name category none n = refl
Fixed-is_named name category (some d) n = refl

-- Rows that were there are there, but for what an upsert changes.
abbrev pub Stays : List Node → List Node → Type 0
Stays rows rows' = (P : Node → Bool) → Fixed P → any P rows ≡ true → any P rows' ≡ true

any-rewrite :
    (P p : Node → Bool) (d : Option String) (ns : List Node)
    → Fixed P
    → any P (rewrite p (refresh d) ns) ≡ any P ns
any-rewrite P p d [] f = refl
any-rewrite P p d (n ∷ ns) f = elim (Bool-cases (p n)) [
  | inl e ↦ rw (e, f d n, any-rewrite P p d ns f) refl
  | inr e ↦ rw (e, any-rewrite P p d ns f) refl
]

first-any :
    (name category : String) (ns : List Node) (row : Node)
    → first (is_named name category) ns ≡ some row
    → any (row_in row.id name category) ns ≡ true
first-any name category [] row h = absurd (cc)
first-any name category (n ∷ ns) row h = elim (Bool-cases (is_named name category n)) [
  | inl e ↦
      let found : ◌≡◌ {A = Option Node} (some n) (some row) = rw e at h in
      let same : n ≡ row = cc in
      let id_is = ap (λ r. r.id) same in
      let here : (n.id == row.id) ≡ true = (==_iff n.id row.id).1 id_is in ground (arith, here, e)
  | inr e ↦ let later = first-any name category ns row (rw e at h) in ground (arith, later)
]

-- An upsert raises only on a category that the table does not take.
pub record Upserts (n : NewNode) (g : Graph) (r : Outcome Error ℕ × Graph) : Type 0 where
  pub same_edges : r.1.edges ≡ g.edges
  pub stays : Stays g.nodes r.1.nodes
  pub ends :
      ((x : Error) × (r.0 ≡ raised x) × (is_category n.category ≡ false))
      ⊎ ((id : ℕ) × (r.0 ≡ returned id) × (any (row_in id n.name n.category) r.1.nodes ≡ true))

pub upsert_node-Upserts : (n : NewNode) (g : Graph) → Upserts n g (upsert_node n g)
unfolding upsert_node insert_node
upsert_node-Upserts n g = elim (Option-cases (first (is_named n.name n.category) g.nodes)) [
  | inl e ↦ elim (Bool-cases (is_category n.category)) [
    | inl k ↦
        rw (e, upsert_node, k, insert_node)
          (record {
            same_edges = refl;
            stays = λ P f h. any-append P g.nodes _ ∙ rw h refl;
            ends = inr (
              g.next_id,
              refl,
              any-append (row_in g.next_id n.name n.category) g.nodes _
                  ∙ ground (arith, ==_refl g.next_id, ==_refl n.name, ==_refl n.category),
            );
          })
    | inr k ↦
        rw (e, upsert_node, k, insert_node)
          (record { same_edges = refl; stays = λ P f h. h; ends = inl (integrity_error, refl, k) })
  ]
  | inr (row, e) ↦
      rw (e, upsert_node)
        (record {
          same_edges = refl;
          stays = λ P f h. any-rewrite P (has_id row.id) n.description g.nodes f ∙ h;
          ends = inr (
            row.id,
            refl,
            any-rewrite (row_in row.id n.name n.category) (has_id row.id) n.description g.nodes
                  (Fixed-row_in row.id n.name n.category)
                ∙ first-any n.name n.category g.nodes row e,
          );
        })
]
