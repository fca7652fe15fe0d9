-- ===== src/Heartbeat/Commands.antt =====
-- runtime/commands/commands.py, and the command phase of a beat (engines/heartbeat/orchestrator.py,
-- `_phase_handle_commands`). What a command reports, or that its report fails, is a world.
pub mod Parsing
pub mod Priority
use Prim.Native.Char.{Char, code}
use krakey_bot.Base.{
  ℕ, zero, suc, ◌+◌, ◌-◌, String, Bool, true, false, ◌&&◌, ◌||◌, List, [], ◌∷◌, ◌++◌, Option, none,
  some, if◌then◌else◌, leb, nat_beq, ◌==◌, string_eq, any,
}
use krakey_bot.Base.Text.{concat}
use krakey_bot.Base.Strip.{is_space, lstrip, rstrip}
use krakey_bot.Base.Action.{Action, Outcome, returned, raised, pure, throw}
use krakey_bot.Stimuli.{Stimulus, Stamp}
use krakey_bot.Stimuli.Buffer.{Buffer, push}

-- KNOWN_COMMANDS
pub data Command : Type 0 where
  status memory_stats sleep kill : Command

pub data CommandAction : Type 0 where
  no_action sleep_action kill_action : CommandAction

pub record CommandResult : Type 0 where
  pub action : CommandAction
  pub output : String

pub data Error : Type 0 where
  index_error report_error : Error

-- The characters up to the next space.
unfoldable pub word : String → String
word String.[] = ""
word (String.◌∷◌ c s) = let rest = word s in if is_space c then "" else String.◌∷◌ c rest

abbrev pub letter : ℕ → String → Char → Char
letter n String.[] d = d
letter zero (String.◌∷◌ c s) d = c
letter (suc n) (String.◌∷◌ c s) d = letter n s d

-- str.lower, as far as its result can be a known command: of the other characters only the Kelvin
-- sign has an ASCII letter for its lower case.
unfoldable pub lower : String → String
lower String.[] = ""
lower (String.◌∷◌ c s) =
    let n = code c in
    let small =
      if leb 65 n && leb n 90
      then letter (n - 65) "abcdefghijklmnopqrstuvwxyz" c
      else if nat_beq n 8490
      then "k"
      else c in
    String.◌∷◌ small (lower s)

abbrev known : String → Option Command
known cmd =
    if cmd == "status"
    then some status
    else if cmd == "memory_stats"
    then some memory_stats
    else if cmd == "sleep"
    then some sleep
    else if cmd == "kill"
    then some kill
    else none

-- What stands behind the slash: its first word, which has to be there.
unfoldable pub first_word : String → Outcome Error (Option Command)
unfolding lstrip word lower
first_word rest =
    let w = word (lstrip rest) in if w == "" then raised index_error else returned (known (lower w))

unfoldable pub behind_slash : String → Outcome Error (Option Command)
unfolding first_word
behind_slash String.[] = returned none
behind_slash (String.◌∷◌ c rest) = if nat_beq (code c) 47 then first_word rest else returned none

-- An empty content is covered by the empty text.
unfoldable pub parse_command : String → Outcome Error (Option Command)
unfolding lstrip rstrip behind_slash
parse_command content = behind_slash (rstrip (lstrip content))

pub record Runtime : Type 0 where
  pub buffer : Buffer
  pub stopped : Bool

pub record Phase : Type 0 where
  pub filtered : List Stimulus
  pub triggered : Option CommandAction

abbrev pub name : Command → String
name status = "status"
name memory_stats = "memory_stats"
name sleep = "sleep"
name kill = "kill"

unfoldable pub parsed : Stimulus → Outcome Error (Option Command)
unfolding parse_command
parsed s = if s.type == "user_message" then parse_command s.content else returned none

module _ (report : ℕ → Command → Outcome Error String) (stamps : ℕ → Stamp) where
  -- `handle_command`, for the n-th stimulus of the batch.
  unfoldable pub handle_command : ℕ → Command → Outcome Error CommandResult
  handle_command n sleep =
      returned (record { action = sleep_action; output = "manual sleep request received" })
  handle_command n kill =
      returned (record { action = kill_action; output = "manual shutdown requested" })
  handle_command n c = elim (report n c) [
    | raised x ↦ raised x
    | returned output ↦ returned (record { action = no_action; output = output })
  ]

  unfoldable pub notice : ℕ → Command → String → Stimulus
  notice n c output = record {
    ident = (stamps n).ident;
    type = "system_event";
    source = "system:command";
    content = concat ("/" ∷ name c ∷ ": " ∷ output ∷ []);
    timestamp = (stamps n).now;
    adrenalin = false;
  }

  -- The loop, from the n-th stimulus on: what was filtered and triggered before is handed on.
  unfoldable pub handle_commands : ℕ → Phase → List Stimulus → Action Error Runtime Phase
  unfolding handle_command notice parsed
  handle_commands n p [] rt = pure p rt
  handle_commands n p (s ∷ rest) rt = elim (parsed s) [
    | raised x ↦ throw x rt
    | returned none ↦ handle_commands (suc n) (record p { filtered = p.filtered ++ s ∷ [] }) rest rt
    | returned (some c) ↦ elim (handle_command n c) [
      | raised x ↦ throw x rt
      | returned result ↦ elim result.action [
        | kill_action ↦
            pure (record p { triggered = some kill_action }) (record rt { stopped = true })
        | sleep_action ↦
            handle_commands (suc n) (record p { triggered = some sleep_action }) rest rt
        | no_action ↦
            handle_commands (suc n) p rest
              (record rt { buffer = push (notice n c result.output) rt.buffer })
      ]
    ]
  ]

  unfoldable pub phase_handle_commands : List Stimulus → Action Error Runtime Phase
  unfolding handle_commands
  phase_handle_commands = handle_commands 0 (record { filtered = []; triggered = none })
