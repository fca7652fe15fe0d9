-- ===== src/Tools.antt =====
-- interfaces/tool.py: `ToolRegistry`. A tool is a plugin's object, known by its name and description.
use krakey_bot.Base.{String, Bool, List, Option, none, some, if◌then◌else◌, string_eq}
use krakey_bot.Base.Dict
use krakey_bot.Base.Dict.{Dict}
use krakey_bot.Base.Action.{Outcome, returned, raised}

pub record Tool : Type 0 where
  pub name : String
  pub description : String

abbrev pub ToolRegistry : Type 0
ToolRegistry = Dict String Tool

pub data Error : Type 0 where
  already_registered key_error : Error

unfoldable pub register : Tool → ToolRegistry → Outcome Error ToolRegistry
register t r =
    if Dict.has t.name r then raised already_registered else returned (Dict.put t.name t r)

unfoldable pub get : String → ToolRegistry → Outcome Error Tool
get n r = elim (Dict.get n r) [ none ↦ raised key_error | some t ↦ returned t ]

unfoldable pub contains : String → ToolRegistry → Bool
contains n r = Dict.has n r

unfoldable pub all : ToolRegistry → List Tool
all r = Dict.values r

unfoldable pub deregister : String → ToolRegistry → Option Tool × ToolRegistry
deregister n r = (Dict.get n r, Dict.pop n r)
