-- ===== src/Sleep/Bases.antt =====
-- engines/memory/_internal/knowledge_base: the entries of a knowledge base and the registry.
use krakey_bot.Base.{
  ℕ, suc, ◌+◌, String, Bool, true, false, not, ◌&&◌, ◌||◌, List, [], ◌∷◌, ◌++◌, any, if◌then◌else◌,
  ◌==◌, string_eq, nat_eq,
}
use krakey_bot.Base.Action.{Outcome, returned, raised}
use krakey_bot.MemoryGraph.{Edge, is_same_row, normalized}

pub data Error : Type 0 where
  key_error value_error : Error
  world_error : String → Error

pub record Entry : Type 0 where
  pub id : ℕ
  pub content : String
  pub source : String
  pub tags : List String
  pub importance : ℕ
  pub is_active : Bool

-- `next_id` is the counter of AUTOINCREMENT.
pub record Base : Type 0 where
  pub entries : List Entry
  pub next_id : ℕ
  pub edges : List Edge
  pub is_archived : Bool
  pub has_index : Bool

abbrev pub empty_base : Base
empty_base = record {
  entries = [];
  next_id = 1;
  edges = [];
  is_archived = false;
  has_index = false;
}

abbrev pub has_entry : ℕ → List Entry → Bool
has_entry id [] = false
has_entry id (e ∷ es) = e.id == id || has_entry id es

-- sorted(set(existing) | set(new)), as a set.
abbrev pub union : List String → List String → List String
union [] ts = ts
union (x ∷ xs) ts = let rest = union xs ts in if any (λ t. t == x) ts then rest else x ∷ rest

abbrev pub fold_entry : ℕ → String → ℕ → List String → List Entry → List Entry
fold_entry id content importance tags [] = []
fold_entry id content importance tags (e ∷ es) =
    (if e.id == id
      then record e {
        content = content;
        importance = e.importance + importance;
        tags = union e.tags tags;
      }
      else e)
    ∷ fold_entry id content importance tags es

-- The entry's id, and the base that has it.
unfoldable pub write_entry : String → String → List String → ℕ → Base → ℕ × Base
write_entry content source tags importance b = (
  b.next_id,
  record b {
    entries =
        b.entries
        ++ record {
          id = b.next_id;
          content = content;
          source = source;
          tags = tags;
          importance = importance;
          is_active = true;
        }
          ∷ [];
    next_id = suc b.next_id;
  },
)

unfoldable pub merge_entry : ℕ → String → ℕ → List String → Base → Outcome Error Base
merge_entry id content importance tags b =
    if has_entry id b.entries
    then returned (record b { entries = fold_entry id content importance tags b.entries })
    else raised key_error

-- Whether the row was written, for two different entries.
unfoldable pub write_edge : ℕ → ℕ → String → Base → Bool × Base
write_edge a b predicate base =
    let e = normalized a b predicate in
    if has_entry a base.entries
      && (has_entry b base.entries && not (any (is_same_row e) base.edges))
    then (true, record base { edges = e ∷ base.edges })
    else (false, base)
