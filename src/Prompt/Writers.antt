-- ===== src/Prompt/Writers.antt =====
-- Who wrote an element, and what is in it, after the plugins' writes.
use krakey_bot.Base.{
  String, Bool, true, false, ◌≡◌, refl, ap, sym, ◌∙◌, List, [], ◌∷◌, ◌++◌, Option, none, some,
  if◌then◌else◌, ◌==◌, ==_iff, string_eq, arith,
}
use mathlib.Core.List.{append_assoc, append-nil}
use krakey_bot.Base.Dict
use krakey_bot.Base.Dict.{get-put, get-pop}
use krakey_bot.Prompt.{
  PromptElements, Write, sets, deletes, writers, note_modification, set, delete, apply, apply_all,
}

-- The plugins among the writes that write `key`, and the value that the last one of them leaves.
abbrev pub writers_in : String → List Write → List String
writers_in key [] = []
writers_in key (sets plugin k v ∷ ws) =
    let rest = writers_in key ws in if k == key then plugin ∷ rest else rest
writers_in key (deletes plugin k ∷ ws) =
    let rest = writers_in key ws in if k == key then plugin ∷ rest else rest

abbrev pub value_after : String → Option String → List Write → Option String
value_after key old [] = old
value_after key old (sets plugin k v ∷ ws) = value_after key (if k == key then some v else old) ws
value_after key old (deletes plugin k ∷ ws) = value_after key (if k == key then none else old) ws

note-writers :
    (k plugin key : String) (e : PromptElements)
    → writers key (note_modification k plugin e)
      ≡ (if k == key then writers key e ++ plugin ∷ [] else writers key e)
unfolding note_modification
note-writers k plugin key e =
    ground (arith, get-put k key (writers k e ++ plugin ∷ []) e.modified_by, ==_iff k key)

joined :
    (b : Bool) (plugin : String) (l rest : List String)
    → (if b then l ++ plugin ∷ [] else l) ++ rest ≡ l ++ (if b then plugin ∷ rest else rest)
joined true plugin l rest = append_assoc l (plugin ∷ []) rest
joined false plugin l rest = refl

-- After any writes: an element's writers are the plugins that wrote it, in order, behind those that
-- had written it before; and its value is what the last of the writes to it left, if there was one.
pub apply_all_lem :
    (ws : List Write) (key : String) (e : PromptElements)
    → (writers key (apply_all e ws) ≡ writers key e ++ writers_in key ws)
      × (Dict.get key (apply_all e ws).elements ≡ value_after key (Dict.get key e.elements) ws)
unfolding apply_all apply set delete note_modification
apply_all_lem [] key e = (sym (append-nil (writers key e)), refl)
apply_all_lem (sets plugin k v ∷ ws) key e =
    let (a, b) = apply_all_lem ws key (set k v plugin e) in
    (
      a
          ∙ ap (λ l. l ++ writers_in key ws) (note-writers k plugin key e)
          ∙ joined (k == key) plugin (writers key e) (writers_in key ws),
      b ∙ ap (λ o. value_after key o ws) (get-put k key v e.elements),
    )
apply_all_lem (deletes plugin k ∷ ws) key e =
    let (a, b) = apply_all_lem ws key (delete k plugin e) in
    (
      a
          ∙ ap (λ l. l ++ writers_in key ws) (note-writers k plugin key e)
          ∙ joined (k == key) plugin (writers key e) (writers_in key ws),
      b ∙ ap (λ o. value_after key o ws) (get-pop k key e.elements),
    )
