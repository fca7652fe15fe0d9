-- ===== src/Router/Preflight.antt =====
-- What the preflight leaves to the plugins.
use krakey_bot.Base.{
  ◌≡◌, refl, ap, sym, ◌∙◌, Distinct, ==_iff, String, Bool, true, false, ◌&&◌, not, List, [], ◌∷◌,
  ◌++◌, Option, none, some, if◌then◌else◌, elem, is_empty, any, ◌==◌, string_eq, Bool-cases, inl,
  inr, arith,
}
use krakey_bot.Base.Dict
use krakey_bot.Base.Dict.{Dict, get-pop, get-put, elem-keys}
use krakey_bot.Base.Action.{Outcome, returned, raised}
use krakey_bot.Json.{Fields}
use krakey_bot.Router.{
  EnvironmentRouter, Environment, Denied, no_such_environment, not_allow_listed, Failure,
  unavailable, other_failure, report, record_status, allowed, for_plugin, preflight_each,
  deregister, preflight_all,
}

-- A preflight that reports that its environment is unavailable, and one that fails otherwise.
abbrev pub is_down : Outcome Failure (Option Fields) → Bool
is_down (raised (unavailable e)) = true
is_down _ = false

abbrev pub is_other : Outcome Failure (Option Fields) → Bool
is_other (raised other_failure) = true
is_other _ = false

-- `for_plugin`, as a function of the two entries that it reads.
abbrev answer : String → Option Environment → Option (List String) → Outcome Denied Environment
answer plugin env plugins = elim env [
  | none ↦ raised no_such_environment
  | some e ↦
      if elem plugin (elim plugins [ none ↦ [] | some l ↦ l ])
      then returned e
      else raised not_allow_listed
]

deregister-get :
    (names : List String) (n : String) (r : EnvironmentRouter)
    → (Dict.get n (deregister names r).envs ≡ (if elem n names then none else Dict.get n r.envs))
      × (Dict.get n (deregister names r).allow
          ≡ (if elem n names then none else Dict.get n r.allow))
unfolding deregister
deregister-get [] n r = (refl, refl)
deregister-get (m ∷ names) n r =
    let later = record r { envs = Dict.pop m r.envs; allow = Dict.pop m r.allow } in
    let (a, b) = deregister-get names n later in
    (ground (arith, a, get-pop m n r.envs), ground (arith, b, get-pop m n r.allow))

deregister-status :
    (names : List String) (n : String) (r : EnvironmentRouter)
    → Dict.get n (deregister names r).status ≡ Dict.get n r.status
unfolding deregister
deregister-status [] n r = refl
deregister-status (m ∷ names) n r =
    deregister-status names n (record r { envs = Dict.pop m r.envs; allow = Dict.pop m r.allow })

get_of_absent :
    (n : String) (envs : Dict String Environment) → Dict.has n envs ≡ false → Dict.get n envs ≡ none
get_of_absent n [] h = refl
get_of_absent n ((m, env) ∷ envs) h = ground (arith, get_of_absent n envs)

module _ (preflight : Environment → Outcome Failure (Option Fields)) where
  -- Environment `n` is one of these, has a plugin, and is unavailable.
  abbrev pub is_dropped : String → EnvironmentRouter → Dict String Environment → Bool
  is_dropped n r = any λ (m, env). m == n && not (is_empty (allowed m r)) && is_down (preflight env)

  -- What the attempt at an environment leaves as its status.
  abbrev pub status_of : Outcome Failure (Option Fields) → Option (String × String)
  status_of (raised (unavailable e)) = some (e.reason, e.text)
  status_of (raised other_failure) = none
  status_of (returned info) = some ("ok", "preflight passed")

  -- The status of `n` afterwards: a configured environment with a plugin has that of its attempt, and
  -- any other the one it had.
  abbrev expected : String → EnvironmentRouter → Option Environment → Option (String × String)
  expected n r none = Dict.get n r.status
  expected n r (some env) =
      if is_empty (allowed n r) then Dict.get n r.status else status_of (preflight env)

  abbrev pub status_after :
      String → EnvironmentRouter → Dict String Environment → Option (String × String)
  status_after n r envs = expected n r (Dict.get n envs)

  -- The payloads of the environments with a plugin, in order.
  abbrev payload : String → Outcome Failure (Option Fields) → List Fields
  payload m (returned info) = report m info
  payload m (raised e) = []

  abbrev pub payloads : EnvironmentRouter → Dict String Environment → List Fields
  payloads r [] = []
  payloads r ((m, env) ∷ envs) =
      (if is_empty (allowed m r) then [] else payload m (preflight env)) ++ payloads r envs

  -- A run of the loop.
  record Runs (envs : Dict String Environment) (r : EnvironmentRouter) : Type 0 where
    failed : List String
    after : EnvironmentRouter
    returns : preflight_each preflight envs r ≡ (returned (payloads r envs, failed), after)
    same_envs : after.envs ≡ r.envs
    same_allow : after.allow ≡ r.allow
    dropped : (n : String) → elem n failed ≡ is_dropped n r envs
    status : (n : String) → Dict.get n after.status ≡ status_after n r envs

  preflight_each_lem :
      (envs : Dict String Environment) (r : EnvironmentRouter)
      → any (λ (n, env). is_other (preflight env)) envs ≡ false
      → Distinct (Dict.keys envs)
      → Runs envs r
  unfolding preflight_each record_status
  preflight_each_lem [] r h d = record {
    failed = [];
    after = r;
    returns = refl;
    same_envs = refl;
    same_allow = refl;
    dropped = λ n. refl;
    status = λ n. refl;
  }
  preflight_each_lem ((m, env) ∷ envs) r h (free, d) = elim (Bool-cases (is_empty (allowed m r))) [
    | inl e ↦
        let v = preflight_each_lem envs r (ground arith) d in
        record {
          failed = v.failed;
          after = v.after;
          returns = rw (e, preflight_each) v.returns;
          status = λ n. skipped n e (v.status n);
          same_envs = v.same_envs;
          same_allow = v.same_allow;
          dropped = λ n. ground (arith, e, v.dropped n);
        }
    | inr e ↦ go e (preflight env) refl (λ t. preflight_each_lem envs t (ground arith) d)
  ]
    where
      absent : Dict.get m envs ≡ none
      absent = get_of_absent m envs (sym (elem-keys m envs) ∙ free)

      skipped :
          {s : Option (String × String)} (n : String)
          → is_empty (allowed m r) ≡ true
          → s ≡ status_after n r envs
          → s ≡ status_after n r ((m, env) ∷ envs)
      skipped n e v = elim (Bool-cases (m == n)) [
        | inl i ↦
            let same : m ≡ n = (==_iff m n).0 i in
            let here : Dict.get n ((m, env) ∷ envs) ≡ some env = ground (arith, i) in
            let none_else : Dict.get n envs ≡ none = rw (sym same) absent in
            let empty : is_empty (allowed n r) ≡ true = rw (sym same) e in
            v ∙ ap (expected n r) none_else ∙ sym (ap (expected n r) here ∙ rw empty refl)
        | inr i ↦
            let there : Dict.get n ((m, env) ∷ envs) ≡ Dict.get n envs = ground (arith, i) in
            v ∙ ap (expected n r) (sym there)
      ]

      unnoted :
          (n x y : String) (o : Option Environment)
          → Dict.get n (Dict.put m (x, y) r.status) ≡ Dict.get n r.status
          → expected n (record_status m x y r) o ≡ expected n r o
      unnoted n x y none kept = kept
      unnoted n x y (some other) kept =
          ap (λ s. if is_empty (allowed n r) then s else status_of (preflight other)) kept

      tried :
          {s : Option (String × String)} (n x y : String)
          → is_empty (allowed m r) ≡ false
          → some (x, y) ≡ status_of (preflight env)
          → s ≡ status_after n (record_status m x y r) envs
          → s ≡ status_after n r ((m, env) ∷ envs)
      tried n x y e f v = elim (Bool-cases (m == n)) [
        | inl i ↦
            let same : m ≡ n = (==_iff m n).0 i in
            let here : Dict.get n ((m, env) ∷ envs) ≡ some env = ground (arith, i) in
            let none_else : Dict.get n envs ≡ none = rw (sym same) absent in
            let used : is_empty (allowed n r) ≡ false = rw (sym same) e in
            let noted : Dict.get n (Dict.put m (x, y) r.status) ≡ some (x, y) =
              get-put m n (x, y) r.status ∙ rw i refl in
            v
            ∙ ap (expected n (record_status m x y r)) none_else
            ∙ noted
            ∙ f
            ∙ sym (ap (expected n r) here ∙ rw used refl)
        | inr i ↦
            let there : Dict.get n ((m, env) ∷ envs) ≡ Dict.get n envs = ground (arith, i) in
            let kept : Dict.get n (Dict.put m (x, y) r.status) ≡ Dict.get n r.status =
              get-put m n (x, y) r.status ∙ rw i refl in
            v ∙ unnoted n x y (Dict.get n envs) kept ∙ ap (expected n r) (sym there)
      ]

      go :
          is_empty (allowed m r) ≡ false
          → (o : Outcome Failure (Option Fields)) → preflight env ≡ o
          → ((t : EnvironmentRouter) → Runs envs t)
          → Runs ((m, env) ∷ envs) r
      go e (raised other_failure) f rest = absurd (ground (arith, f))
      go e (raised (unavailable x)) f rest =
          let v = rest (record_status m x.reason x.text r) in
          record {
            failed = m ∷ v.failed;
            after = v.after;
            returns = rw (e, preflight_each, f, v.returns) refl;
            same_envs = v.same_envs;
            same_allow = v.same_allow;
            dropped = λ n. ground (arith, e, f, v.dropped n);
            status = λ n. tried n x.reason x.text e (ap status_of (sym f)) (v.status n);
          }
      go e (returned info) f rest =
          let v = rest (record_status m "ok" "preflight passed" r) in
          record {
            failed = v.failed;
            after = v.after;
            returns = rw (e, preflight_each, f, v.returns) refl;
            same_envs = v.same_envs;
            same_allow = v.same_allow;
            dropped = λ n. ground (arith, e, f, v.dropped n);
            status = λ n. tried n "ok" "preflight passed" e (ap status_of (sym f)) (v.status n);
          }

  -- Where the environments' names are distinct, as the keys of a dict are, and no preflight fails in
  -- another way than by reporting its environment as unavailable, each environment with a plugin is
  -- tried: its status afterwards is that of its attempt, and its payload, where it gave one, is
  -- returned, in the order of the environments; one with no plugin is not tried, and keeps its
  -- status. A plugin's request is answered as before, unless its environment was one that has a
  -- plugin and is unavailable: that is no longer configured.
  pub preflight_all_lem :
      (r : EnvironmentRouter)
      → any (λ (n, env). is_other (preflight env)) r.envs ≡ false
      → Distinct (Dict.keys r.envs)
      → (after : EnvironmentRouter) × (preflight_all preflight r
          ≡ (returned (payloads r r.envs), after))
        × ((n : String) → Dict.get n after.status ≡ status_after n r r.envs)
        × ((plugin env_name : String)
            → for_plugin plugin env_name after ≡ (
                if is_dropped env_name r r.envs
                then raised no_such_environment
                else for_plugin plugin env_name r))
  unfolding preflight_all for_plugin
  preflight_all_lem r h d =
      let v = preflight_each_lem r.envs r h d in
      (
        deregister v.failed v.after,
        rw (v.returns, preflight_all) refl,
        λ n. deregister-status v.failed n v.after ∙ v.status n,
        λ plugin n.
            let (envs, allow) = deregister-get v.failed n v.after in
            elim (Bool-cases (is_dropped n r r.envs)) [
              | inl d ↦
                  let gone : Dict.get n (deregister v.failed v.after).envs ≡ none =
                    envs
                    ∙ ap (λ b. if b then none else Dict.get n v.after.envs) (v.dropped n ∙ d) in
                  rw (d, for_plugin, gone) refl
              | inr d ↦
                  let kept_envs : Dict.get n (deregister v.failed v.after).envs
                      ≡ Dict.get n r.envs =
                    envs
                    ∙ ap (λ b. if b then none else Dict.get n v.after.envs) (v.dropped n ∙ d)
                    ∙ ap (Dict.get n) v.same_envs in
                  let kept_allow : Dict.get n (deregister v.failed v.after).allow
                      ≡ Dict.get n r.allow =
                    allow
                    ∙ ap (λ b. if b then none else Dict.get n v.after.allow) (v.dropped n ∙ d)
                    ∙ ap (Dict.get n) v.same_allow in
                  rw d (
                    ap (λ o. answer plugin o (Dict.get n (deregister v.failed v.after).allow))
                      kept_envs
                    ∙ ap (answer plugin (Dict.get n r.envs)) kept_allow)
            ],
      )
