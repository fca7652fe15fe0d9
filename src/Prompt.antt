-- ===== src/Prompt.antt =====
-- prompt/elements.py: the layers of a prompt, and who modified them.
pub mod Writers
use krakey_bot.Base.{
  String, Bool, true, false, not, List, [], ◌∷◌, ◌++◌, Option, none, some, if◌then◌else◌, ◌==◌,
  string_eq, keep, is_empty,
}
use krakey_bot.Base.Text.{join}
use krakey_bot.Base.Dict
use krakey_bot.Base.Dict.{Dict}
use krakey_bot.Base.Action.{Outcome, returned, raised}

-- A warning names the plugin, the element, and the plugins that had modified it.
pub record Warning : Type 0 where
  pub plugin : String
  pub key : String
  pub existing : List String

pub record PromptElements : Type 0 where
  pub elements : Dict String String
  pub modified_by : Dict String (List String)
  pub warnings : List Warning

pub data Error : Type 0 where
  key_error : Error

ordered_dict : List (String × String) → Dict String String → Dict String String
ordered_dict [] d = d
ordered_dict ((k, v) ∷ l) d = ordered_dict l (Dict.put k v d)

unfoldable pub init : List (String × String) → PromptElements
unfolding ordered_dict
init initial = record { elements = ordered_dict initial []; modified_by = []; warnings = [] }

unfoldable pub contains : String → PromptElements → Bool
contains key e = Dict.has key e.elements

unfoldable pub get_item : String → PromptElements → Outcome Error String
get_item key e = elim (Dict.get key e.elements) [ none ↦ raised key_error | some v ↦ returned v ]

unfoldable pub get : String → String → PromptElements → String
get key default e = elim (Dict.get key e.elements) [ none ↦ default | some v ↦ v ]

unfoldable pub keys : PromptElements → List String
keys e = Dict.keys e.elements

abbrev pub writers : String → PromptElements → List String
writers key e = elim (Dict.get key e.modified_by) [ none ↦ [] | some l ↦ l ]

unfoldable pub note_modification : String → String → PromptElements → PromptElements
note_modification key plugin e =
    let existing = writers key e in
    record e {
      modified_by = Dict.put key (existing ++ plugin ∷ []) e.modified_by;
      warnings =
          if is_empty existing
          then e.warnings
          else e.warnings ++ record { plugin = plugin; key = key; existing = existing } ∷ [];
    }

unfoldable pub set : String → String → String → PromptElements → PromptElements
unfolding note_modification
set key value plugin e =
    let noted = note_modification key plugin e in
    record noted { elements = Dict.put key value noted.elements }

unfoldable pub delete : String → String → PromptElements → PromptElements
unfolding note_modification
delete key plugin e =
    let noted = note_modification key plugin e in
    record noted { elements = Dict.pop key noted.elements }

unfoldable pub render : String → PromptElements → String
render separator e = join separator (keep (λ v. not (v == "")) (Dict.values e.elements))

-- BoundPromptElements: the plugin that writes through it, and what it writes.
pub data Write : Type 0 where
  sets : (plugin key value : String) → Write
  deletes : (plugin key : String) → Write

unfoldable pub apply : PromptElements → Write → PromptElements
unfolding set delete
apply e (sets plugin key value) = set key value plugin e
apply e (deletes plugin key) = delete key plugin e

unfoldable pub apply_all : PromptElements → List Write → PromptElements
unfolding apply
apply_all e [] = e
apply_all e (w ∷ ws) = apply_all (apply e w) ws
