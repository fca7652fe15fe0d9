-- ===== src/MemoryGraph/Storage/Rows.antt =====
-- The table gm_nodes of schemas.sql, and what the statements of gm/storage.py do with its rows.
use krakey_bot.Base.{
  ℕ, suc, String, Bool, ◌&&◌, ◌||◌, List, [], ◌∷◌, Option, none, some, if◌then◌else◌, ◌==◌,
  string_eq, nat_eq,
}
use krakey_bot.Base.Dict.{Dict, put}
use krakey_bot.Json.{Json}

pub record Node : Type 0 where
  pub id : ℕ
  pub name : String
  pub category : String
  pub description : Option String
  pub importance : ℕ
  pub source_type : String
  pub metadata : Dict String Json

-- The CHECK on the category.
unfoldable pub is_category : String → Bool
is_category c =
    c == "FACT" || (c == "RELATION" || (c == "KNOWLEDGE" || (c == "TARGET" || c == "FOCUS")))

abbrev pub ids : List Node → List ℕ
ids [] = []
ids (n ∷ ns) = n.id ∷ ids ns

abbrev pub has_id : ℕ → Node → Bool
has_id id n = n.id == id

abbrev pub is_named : String → String → Node → Bool
is_named name category n = n.name == name && n.category == category

-- SELECT of one row, in the order of the ids.
abbrev pub first : (Node → Bool) → List Node → Option Node
first p [] = none
first p (n ∷ ns) = if p n then some n else first p ns

abbrev pub rewrite : (Node → Bool) → (Node → Node) → List Node → List Node
rewrite p f [] = []
rewrite p f (n ∷ ns) = (if p n then f n else n) ∷ rewrite p f ns

-- What an upsert changes in the row that is there.
abbrev pub refresh : Option String → Node → Node
refresh none n = record n { importance = suc n.importance }
refresh (some d) n = record n { importance = suc n.importance; description = some d }

-- {**current, **delta}
abbrev pub merge : Dict String Json → Dict String Json → Dict String Json
merge current [] = current
merge current ((k, v) ∷ delta) = merge (put k v current) delta
