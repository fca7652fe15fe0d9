-- ===== src/Json.antt =====
-- The values that `json.loads` makes, as the program handles them: JSON's types are Python's.
-- A float is known by its `repr` and by whether it is zero.
use krakey_bot.Base.{
  ℕ, zero, suc, String, Bool, true, false, not, Option, none, some, if◌then◌else◌, ◌==◌, string_eq,
}

mutual
  pub data Json : Type 0 where
    null : Json
    bool : Bool → Json
    int : (negative : Bool) → ℕ → Json
    float : (repr : String) → (is_zero : Bool) → Json
    str : String → Json
    arr : Items → Json
    obj : Fields → Json

  pub data Items : Type 0 where
    nil : Items
    cons : Json → Items → Items

  -- A dict, in insertion order.
  pub data Fields : Type 0 where
    end : Fields
    field : String → Json → Fields → Fields

-- d.get(k)
unfoldable pub get : String → Fields → Option Json
get k end = none
get k (field j v d) = if j == k then some v else get k d

-- d.get(k, default)
unfoldable pub get_or : String → Json → Fields → Json
unfolding get
get_or k v d = elim (get k d) [ none ↦ v | some w ↦ w ]

-- bool(v)
unfoldable pub truthy : Json → Bool
truthy null = false
truthy (bool b) = b
truthy (int negative zero) = false
truthy (int negative (suc n)) = true
truthy (float repr is_zero) = not is_zero
truthy (str s) = not (s == "")
truthy (arr nil) = false
truthy (arr (cons v l)) = true
truthy (obj end) = false
truthy (obj (field k v d)) = true

-- A Python int.
pub record PythonInt : Type 0 where
  pub negative : Bool
  pub magnitude : ℕ
