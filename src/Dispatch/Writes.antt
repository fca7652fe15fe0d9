-- ===== src/Dispatch/Writes.antt =====
-- engines/dispatch/dispatcher.py, `apply_memory_writes`. What the memory engine does with a write
-- is a world: whether the n-th `remember` raises. A write is any JSON value, since the
-- translator that makes the list checks nothing.
pub mod Isolation
use krakey_bot.Base.{
  ℕ, Bool, true, false, List, [], ◌∷◌, ◌++◌, ◌+◌, Option, none, some, length, if◌then◌else◌,
}
use krakey_bot.Base.Action.{Action, pure, throw, modify, ◌>>=◌, ◌>>◌}
use krakey_bot.Json.{Json, str, arr, obj, get, get_or}

pub record Remember : Type 0 where
  pub content : Json
  pub importance : Json
  pub recall_context : List Json
  pub source_heartbeat : ℕ

-- The calls of `gm.remember`, and the number of errors that were logged.
pub record Memory : Type 0 where
  pub calls : List Remember
  pub logged : ℕ

pub data Error : Type 0 where
  attribute_error type_error : Error

-- `v[:80]` has a value.
unfoldable pub is_sliceable : Json → Bool
is_sliceable (str s) = true
is_sliceable (arr l) = true
is_sliceable _ = false

module _ (raises : ℕ → Bool) (recall_nodes : List Json) (heartbeat_id : ℕ) where
  abbrev log_error : Action Error Memory (Unit {0})
  log_error m = modify (λ n. record n { logged = n.logged + 1 }) m

  -- `await self._gm.remember(...)`, whose exception is logged.
  abbrev remember : Json → Json → Action Error Memory (Unit {0})
  remember content importance m =
      let called = record m {
        calls =
            m.calls
            ++ record {
              content = content;
              importance = importance;
              recall_context = recall_nodes;
              source_heartbeat = heartbeat_id;
            }
              ∷ [];
      } in
      if raises (length m.calls) then log_error called else pure tt called

  -- One round of the loop: the preview of the content for the log stands before the `try`; in it
  -- a missing content is a KeyError.
  unfoldable pub apply_one : Json → Action Error Memory (Unit {0})
  unfolding is_sliceable
  apply_one (obj w) m = elim (get "content" w) [
    | none ↦ log_error m
    | some c ↦
        if is_sliceable c
        then remember c (get_or "importance" (str "normal") w) m
        else throw type_error m
  ]
  apply_one _ m = throw attribute_error m

  unfoldable pub apply_memory_writes : List Json → Action Error Memory (Unit {0})
  unfolding apply_one
  apply_memory_writes [] = pure tt
  apply_memory_writes (w ∷ ws) = apply_one w >> apply_memory_writes ws
