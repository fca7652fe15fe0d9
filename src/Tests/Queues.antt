-- ===== src/Tests/Queues.antt =====
-- runtime/stimuli: the queue, the channels and the batch tracker, at concrete inputs.
use krakey_bot.Base.{
  ℕ, String, Bool, true, false, ◌≡◌, ◌≢◌, refl, List, [], ◌∷◌, ◌++◌, nat_beq, elem, not, ◌&&◌,
  string_eq,
}
use mathlib.Core.List.{Perm}
use krakey_bot.Base.Dict
use krakey_bot.Base.Sort.{sort_by}
use krakey_bot.Base.Action.{raised}
use krakey_bot.Stimuli.{Stimulus}
use krakey_bot.Stimuli.Buffer.{Buffer, Call, pushes, drains, peeks, empty, drain, run}
use krakey_bot.Stimuli.Buffer.Flags.{IsValid, run-empty-IsValid}
use krakey_bot.Stimuli.Buffer.History.{pushed, drained, drained-perm}
use krakey_bot.Stimuli.BatchTracker.{BatchTracker}
use krakey_bot.Stimuli.Channels
use krakey_bot.Stimuli.Channels.{Channel, Channels, missing_key, pause_non_urgent, resume_all}
use krakey_bot.Stimuli.Channels.Registered.{
  IsConsistent, run-IsConsistent, resume_all-ne-missing_key,
}
use krakey_bot.Stimuli.Channels.Paused.{calm, sleep_round_trip}

abbrev stimulus : ℕ → ℕ → Bool → Stimulus
stimulus ident now urgent = record {
  ident = ident;
  type = "user_message";
  source = "channel:chat";
  content = "hello";
  timestamp = now;
  adrenalin = urgent;
}

abbrev calls : List Call
calls =
    pushes (stimulus 1 20 false)
    ∷ peeks
    ∷ pushes (stimulus 2 10 true)
    ∷ drains
    ∷ pushes (stimulus 3 30 false)
    ∷ []

run-empty-IsValid_example : IsValid (run empty calls)
run-empty-IsValid_example = run-empty-IsValid calls

abbrev queued : Buffer
queued = record {
  queue = stimulus 1 20 false ∷ stimulus 2 10 true ∷ [];
  recalled_up_to = 1;
  adrenalin_event = true;
  new_event = true;
}

drained-perm_example :
    Perm (drained queued calls ++ (run queued calls).queue) (queued.queue ++ pushed calls)
drained-perm_example = drained-perm queued calls

drain_order : (drain queued).0 ≡ stimulus 2 10 true ∷ stimulus 1 20 false ∷ []
unfolding drain sort_by
drain_order = refl

abbrev tracker : BatchTracker
tracker = record { pending = "hb1_c0" ∷ "hb1_c1" ∷ []; connected = true }

abbrev chat : Channel
chat = record { name = "chat"; default_adrenalin = true }

abbrev feed : Channel
feed = record { name = "feed"; default_adrenalin = false }

abbrev third_raises : ℕ → Bool
third_raises n = nat_beq n 2

abbrev channel_calls : List Channels.Call
channel_calls =
    Channels.registers chat
    ∷ Channels.registers feed
    ∷ Channels.starts_all
    ∷ Channels.pauses
    ∷ Channels.resumes
    ∷ Channels.deregisters "feed"
    ∷ []

run-IsConsistent_example : IsConsistent (Channels.run third_raises Channels.init channel_calls)
run-IsConsistent_example = run-IsConsistent third_raises channel_calls

resume_all-ne-missing_key_example :
    (resume_all third_raises (Channels.run third_raises Channels.init channel_calls)).0
    ≢ raised missing_key
resume_all-ne-missing_key_example = resume_all-ne-missing_key third_raises channel_calls

abbrev never : ℕ → Bool
never n = false

abbrev both_running : Channels
both_running = record {
  channels = ("chat", chat) ∷ ("feed", feed) ∷ [];
  running = "chat" ∷ "feed" ∷ [];
  paused = [];
  calls = [];
}

sleep_round_trip_example :
    let asleep = (pause_non_urgent never both_running).1 in
    let awake = (resume_all never asleep).1 in
    ((n : String)
      → elem n asleep.running
        ≡ (elem n both_running.running && not (calm n (Dict.values both_running.channels))))
    × ((n : String) → elem n awake.running ≡ elem n both_running.running)
    × ((n : String) → elem n awake.paused ≡ false)
sleep_round_trip_example =
    sleep_round_trip never (λ k. refl) both_running ((refl, (refl, tt)), (refl, (refl, tt)), tt)
      (λ n. refl)
