-- ===== src/Router.antt =====
-- environment/router/router.py: the named environments, who may use them, and the preflight. An
-- environment is the runtime's object, known by a number; what its `preflight()` does is a world.
pub mod Preflight
use krakey_bot.Base.{
  ℕ, String, Bool, true, false, not, List, [], ◌∷◌, ◌++◌, Option, none, some, map, if◌then◌else◌,
  is_empty, elem, update, string_eq,
}
use krakey_bot.Base.Dict
use krakey_bot.Base.Dict.{Dict}
use krakey_bot.Base.Action.{Action, Outcome, returned, raised, pure, throw, modify, ◌>>=◌, ◌>>◌}
use krakey_bot.Json.{Fields, str, field, get_or}

abbrev pub Environment : Type 0
Environment = ℕ

pub record EnvironmentRouter : Type 0 where
  pub envs : Dict String Environment
  pub allow : Dict String (List String)
  pub status : Dict String (String × String)

-- EnvironmentDenied, for its two reasons.
pub data Denied : Type 0 where
  no_such_environment not_allow_listed : Denied

unfoldable pub init : Dict String Environment → Dict String (List String) → EnvironmentRouter
init envs allow_list = record {
  envs = envs;
  allow = map (λ p. (p.0, update p.1 [])) allow_list;
  status = [];
}

unfoldable pub env_names : EnvironmentRouter → List String
env_names r = Dict.keys r.envs

unfoldable pub is_empty_router : EnvironmentRouter → Bool
is_empty_router r = is_empty r.envs

unfoldable pub record_status : String → String → String → EnvironmentRouter → EnvironmentRouter
record_status env_name status reason r = record r {
  status = Dict.put env_name (status, reason) r.status;
}

-- `self._allow.get(env_name, set())`
abbrev pub allowed : String → EnvironmentRouter → List String
allowed env_name r = elim (Dict.get env_name r.allow) [ none ↦ [] | some plugins ↦ plugins ]

unfoldable pub for_plugin : String → String → EnvironmentRouter → Outcome Denied Environment
for_plugin plugin_name env_name r = elim (Dict.get env_name r.envs) [
  | none ↦ raised no_such_environment
  | some env ↦
      if elem plugin_name (allowed env_name r) then returned env else raised not_allow_listed
]

-- EnvironmentUnavailableError, with its `reason` ("error" where it has none) and its text.
pub record Unavailable : Type 0 where
  pub reason : String
  pub text : String

-- What `preflight()` may raise.
pub data Failure : Type 0 where
  unavailable : Unavailable → Failure
  other_failure : Failure

abbrev pub report : String → Option Fields → List Fields
report env_name none = []
report env_name (some info) = field "env" (get_or "env" (str env_name) info) info ∷ []

-- The end of `preflight_all`, over the names that failed.
unfoldable pub deregister : List String → EnvironmentRouter → EnvironmentRouter
deregister [] r = r
deregister (n ∷ names) r =
    deregister names (record r { envs = Dict.pop n r.envs; allow = Dict.pop n r.allow })

module _ (preflight : Environment → Outcome Failure (Option Fields)) where
  -- The loop over the environments: the payloads, and the names that failed.
  unfoldable pub preflight_each :
      Dict String Environment → Action Failure EnvironmentRouter (List Fields × List String)
  unfolding record_status
  preflight_each [] r = pure ([], []) r
  preflight_each ((env_name, env) ∷ envs) r =
      if is_empty (allowed env_name r) then preflight_each envs r else elim (preflight env) [
        | raised other_failure ↦ throw other_failure r
        | raised (unavailable e) ↦
            (preflight_each envs >>= λ (infos, failed). pure (infos, env_name ∷ failed))
              (record_status env_name e.reason e.text r)
        | returned info ↦
            (preflight_each envs >>= λ (infos, failed).
            pure (report env_name info ++ infos, failed))
              (record_status env_name "ok" "preflight passed" r)
      ]

  unfoldable pub preflight_all : Action Failure EnvironmentRouter (List Fields)
  unfolding preflight_each deregister
  preflight_all r =
      (preflight_each r.envs >>= λ (infos, failed). modify (deregister failed) >> pure infos) r
