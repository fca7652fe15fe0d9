-- ===== src/Dispatch/Writes/Isolation.antt =====
-- How far one bad memory write reaches.
use krakey_bot.Base.{
  ℕ, Bool, true, false, not, ◌≡◌, refl, ap, ◌∙◌, List, [], ◌∷◌, ◌++◌, none, some, if◌then◌else◌,
  arith, Option-cases, Bool-cases, inl, inr, length,
}
use mathlib.Core.List.{append_assoc, append-nil}
use krakey_bot.Base.Action.{Outcome, returned, raised, is_raised}
use krakey_bot.Json.{Json, null, bool, int, float, arr, str, obj, get, get_or}
use krakey_bot.Dispatch.Writes.{
  Remember, Memory, Error, attribute_error, type_error, is_sliceable, apply_one,
  apply_memory_writes,
}

-- A write that the preview accepts: a dict whose content is missing, a text or a list.
abbrev pub is_readable : Json → Bool
is_readable (obj w) = elim (get "content" w) [ none ↦ true | some c ↦ is_sliceable c ]
is_readable _ = false

abbrev pub all_readable : List Json → Bool
all_readable [] = true
all_readable (w ∷ ws) = let rest = all_readable ws in if is_readable w then rest else false

module _ (raises : ℕ → Bool) (recall_nodes : List Json) (heartbeat_id : ℕ) where
  -- What a readable write asks the memory engine to remember.
  abbrev pub request : Json → List Remember
  request (obj w) = elim (get "content" w) [
    | none ↦ []
    | some c ↦
        record {
          content = c;
          importance = get_or "importance" (str "normal") w;
          recall_context = recall_nodes;
          source_heartbeat = heartbeat_id;
        }
        ∷ []
  ]
  request _ = []

  -- The requests of the writes in front of the first that is not readable.
  abbrev pub asked : List Json → List Remember
  asked [] = []
  asked (w ∷ ws) = let rest = request w ++ asked ws in if is_readable w then rest else []

  abbrev run_one : Json → Memory → Outcome Error (Unit {0}) × Memory
  run_one = apply_one raises recall_nodes heartbeat_id

  readable :
      (w : Json) (m : Memory)
      → is_readable w ≡ true
      → ((run_one w m).0 ≡ returned tt) × ((run_one w m).1.calls ≡ m.calls ++ request w)
  unfolding apply_one
  readable (obj w) m h = elim (Option-cases (get "content" w)) [
    | inl e ↦ (rw (e, apply_one) refl, rw (e, apply_one, request, append-nil) refl)
    | inr (c, e) ↦
        let sliceable : is_sliceable c ≡ true = rw (e, is_readable) at h in
        elim (Bool-cases (raises (length m.calls))) [
          | inl r ↦
              (rw (e, apply_one, sliceable, r) refl, rw (e, apply_one, request, sliceable, r) refl)
          | inr r ↦
              (rw (e, apply_one, sliceable, r) refl, rw (e, apply_one, request, sliceable, r) refl)
        ]
  ]
  readable null m h = absurd (cc)
  readable (bool b) m h = absurd (cc)
  readable (int b n) m h = absurd (cc)
  readable (float b n) m h = absurd (cc)
  readable (str b) m h = absurd (cc)
  readable (arr b) m h = absurd (cc)

  unreadable :
      (w : Json) (m : Memory) → is_readable w ≡ false → (x : Error) × (run_one w m ≡ (raised x, m))
  unfolding apply_one
  unreadable (obj w) m h = elim (Option-cases (get "content" w)) [
    | inl e ↦ absurd (ground (arith, e))
    | inr (c, e) ↦
        let refused : is_sliceable c ≡ false = rw (e, is_readable) at h in
        (type_error, rw (e, apply_one, refused) refl)
  ]
  unreadable null m h = (attribute_error, refl)
  unreadable (bool b) m h = (attribute_error, refl)
  unreadable (int b n) m h = (attribute_error, refl)
  unreadable (float b n) m h = (attribute_error, refl)
  unreadable (str b) m h = (attribute_error, refl)
  unreadable (arr b) m h = (attribute_error, refl)

  abbrev run_all : List Json → Memory → Outcome Error (Unit {0}) × Memory
  run_all = apply_memory_writes raises recall_nodes heartbeat_id

  -- Whatever the memory engine raises, it is asked once for each write with a content that stands in
  -- front of the first unreadable one, in order, and for nothing else; a dict without a content is
  -- readable and asks for nothing. The loop raises where there is an unreadable write, which drops
  -- those after it, and returns where there is none.
  pub apply_memory_writes_lem :
      (ws : List Json) (m : Memory)
      → ((run_all ws m).1.calls ≡ m.calls ++ asked ws)
        × (is_raised (run_all ws m).0 ≡ not (all_readable ws))
  unfolding apply_memory_writes
  apply_memory_writes_lem [] m = (rw append-nil refl, refl)
  apply_memory_writes_lem (w ∷ ws) m = elim (Bool-cases (is_readable w)) [
    | inl e ↦
        let (goes, adds) = readable w m e in
        let (calls, ends) = apply_memory_writes_lem ws (run_one w m).1 in
        (
          rw (e, goes)
              (calls ∙ ap (λ l. l ++ asked ws) adds ∙ append_assoc m.calls (request w) (asked ws)),
          rw (e, goes) ends,
        )
    | inr e ↦
        let (x, stops) = unreadable w m e in (rw (e, stops, append-nil) refl, rw (e, stops) refl)
  ]
