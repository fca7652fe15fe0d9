-- ===== src/Stimuli/Channels.antt =====
-- runtime/stimuli/stimulus_buffer.py, the channels: `_channels`, `_running` and `_paused`.
-- A channel's `start` and `stop` belong to plugins: a world says which of these calls raise, by
-- the number of calls made before it. The methods run to their end in one turn; the order of
-- Python's `set` is that of a list.
pub mod Fits
pub mod Registered
pub mod Paused
use krakey_bot.Base.{
  ℕ, String, Bool, true, false, List, [], ◌∷◌, Option, none, some, length, elem, add, discard, not,
  ◌&&◌, if◌then◌else◌, string_eq,
}
use krakey_bot.Base.Dict
use krakey_bot.Base.Dict.{Dict}
use krakey_bot.Base.Action.{Action, Outcome, pure, throw, gets, modify, attempt, ◌>>=◌, ◌>>◌}

pub record Channel : Type 0 where
  pub name : String
  pub default_adrenalin : Bool

pub data Hook : Type 0 where
  started stopped : String → Hook

pub record Channels : Type 0 where
  pub channels : Dict String Channel
  pub running : List String
  pub paused : List String
  -- The calls of the channels' hooks, the last one first.
  pub calls : List Hook

pub data Error : Type 0 where
  already_registered not_registered missing_key hook_failed : Error

abbrev pub World : Type 0
World = ℕ → Bool

abbrev pub Method : Type 0 → Type 0
Method A = Action Error Channels A

abbrev pub init : Channels
init = record { channels = []; running = []; paused = []; calls = [] }

unfoldable pub register : Channel → Method (Unit {0})
register c s =
    if Dict.has c.name s.channels
    then throw already_registered s
    else modify (λ t. record t { channels = Dict.put c.name c t.channels }) s

abbrev pub mark_running : String → Channels → Channels
mark_running n s = record s { running = add n s.running }

abbrev pub unmark_running : String → Channels → Channels
unmark_running n s = record s { running = discard n s.running }

abbrev pub mark_paused : String → Channels → Channels
mark_paused n s = record s { paused = add n s.paused }

abbrev pub unmark_paused : String → Channels → Channels
unmark_paused n s = record s { paused = discard n s.paused }

pub data Call : Type 0 where
  registers : Channel → Call
  starts_all pauses resumes stops_all : Call
  starts_one deregisters : String → Call

module _ (raises : World) where
  unfoldable pub hook : Hook → Method (Unit {0})
  hook h s =
      let t = record s { calls = h ∷ s.calls } in
      if raises (length s.calls) then throw hook_failed t else pure tt t

  unfoldable pub start : String → Method (Unit {0})
  start n = hook (started n) >> modify (mark_running n)

  unfoldable pub start_unless_running : String → Method (Unit {0})
  start_unless_running n s = if elem n s.running then pure tt s else start n s

  -- `for c in channels: body(c)`
  unfoldable pub for_each : (Channel → Method (Unit {0})) → List Channel → Method (Unit {0})
  for_each body [] = pure tt
  for_each body (c ∷ cs) = body c >> for_each body cs

  unfoldable pub start_all : Method (Unit {0})
  start_all s = for_each (λ c. start_unless_running c.name) (Dict.values s.channels) s

  unfoldable pub start_one : String → Method (Unit {0})
  start_one n s =
      if not (Dict.has n s.channels) then throw not_registered s else start_unless_running n s

  unfoldable pub pause_if_calm : Channel → Method (Unit {0})
  pause_if_calm c s =
      if not c.default_adrenalin && elem c.name s.running
      then (hook (stopped c.name) >> modify (unmark_running c.name) >> modify (mark_paused c.name))
          s
      else pure tt s

  unfoldable pub pause_non_urgent : Method (Unit {0})
  pause_non_urgent s = for_each pause_if_calm (Dict.values s.channels) s

  -- `self._channels[name]` raises KeyError where the name is missing.
  unfoldable pub lookup : String → Method Channel
  lookup n s = elim (Dict.get n s.channels) [ none ↦ throw missing_key s | some c ↦ pure c s ]

  unfoldable pub resume_names : List String → Method (Unit {0})
  resume_names [] = pure tt
  resume_names (n ∷ ns) = do
    c ← lookup n
    hook (started c.name)
    modify (mark_running n)
    modify (unmark_paused n)
    resume_names ns

  unfoldable pub resume_all : Method (Unit {0})
  resume_all s = resume_names s.paused s

  unfoldable pub stop_if_running : Channel → Method (Unit {0})
  stop_if_running c s =
      if elem c.name s.running
      then (hook (stopped c.name) >> modify (unmark_running c.name)) s
      else pure tt s

  unfoldable pub stop_all : Method (Unit {0})
  stop_all s = for_each stop_if_running (Dict.values s.channels) s

  -- A raise of the stop hook is swallowed.
  unfoldable pub stop_quietly : String → Channel → Method (Unit {0})
  stop_quietly n c s =
      if elem n s.running
      then (attempt (hook (stopped c.name)) (λ _. pure tt) >> modify (unmark_running n)) s
      else pure tt s

  unfoldable pub deregister : String → Method (Option Channel)
  deregister n s = elim (Dict.get n s.channels) [
    | none ↦ pure none s
    | some c ↦
        (do
          modify (λ t. record t { channels = Dict.pop n t.channels })
          stop_quietly n c
          modify (unmark_paused n)
          pure (some c))
          s
  ]

  abbrev pub ignore : {A : Type 0} → Outcome Error A × Channels → Channels
  ignore r = r.1

  -- A caller that catches what a method raises goes on from the state that it left.
  unfoldable pub step : Channels → Call → Channels
  step s (registers c) = ignore (register c s)
  step s starts_all = ignore (start_all s)
  step s pauses = ignore (pause_non_urgent s)
  step s resumes = ignore (resume_all s)
  step s stops_all = ignore (stop_all s)
  step s (starts_one n) = ignore (start_one n s)
  step s (deregisters n) = ignore (deregister n s)

  unfoldable pub run : Channels → List Call → Channels
  run s [] = s
  run s (c ∷ cs) = run (step s c) cs
