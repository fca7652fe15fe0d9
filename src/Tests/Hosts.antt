-- ===== src/Tests/Hosts.antt =====
-- The router at concrete inputs.
use krakey_bot.Base.{String, ◌≡◌, refl, [], ◌∷◌, Option, none, if◌then◌else◌, nat_beq, string_eq}
use krakey_bot.Base.Dict
use krakey_bot.Base.Action.{Outcome, returned, raised}
use krakey_bot.Json.{Fields}
use krakey_bot.Router.{
  EnvironmentRouter, Environment, Failure, unavailable, no_such_environment, for_plugin,
  preflight_all,
}
use krakey_bot.Router.Preflight.{is_dropped, payloads, status_after, preflight_all_lem}

abbrev router : EnvironmentRouter
router = record {
  envs = ("local", 1) ∷ ("sandbox", 2) ∷ [];
  allow = ("local", "shell" ∷ []) ∷ ("sandbox", "shell" ∷ []) ∷ [];
  status = [];
}

abbrev preflight : Environment → Outcome Failure (Option Fields)
preflight env =
    if nat_beq env 2
    then raised (unavailable (record { reason = "unreachable"; text = "refused" }))
    else returned none

preflight_all_lem_example :
    (after : EnvironmentRouter) × (preflight_all preflight router
      ≡ (returned (payloads preflight router router.envs), after))
    × ((n : String) → Dict.get n after.status ≡ status_after preflight n router router.envs)
    × ((plugin env_name : String)
        → for_plugin plugin env_name after ≡ (
            if is_dropped preflight env_name router router.envs
            then raised no_such_environment
            else for_plugin plugin env_name router))
preflight_all_lem_example = preflight_all_lem preflight router refl (refl, (refl, tt))
