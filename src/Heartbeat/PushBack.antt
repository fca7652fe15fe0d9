-- ===== src/Heartbeat/PushBack.antt =====
-- engines/heartbeat/orchestrator.py, `_phase_finalize_recall_and_pushback`, from the uncovered stimuli
-- on. A stimulus keeps its `metadata` when it is pushed again, being the same object: `retries` is
-- the counter recall_retries by the object's identity.
pub mod Once
use krakey_bot.Base.{ℕ, suc, List, [], ◌∷◌, ◌++◌, none, some, if◌then◌else◌, leb, nat_eq}
use krakey_bot.Base.Dict
use krakey_bot.Base.Dict.{Dict}
use krakey_bot.Stimuli.{Stimulus}
use krakey_bot.Stimuli.Buffer.{Buffer, push}

-- MAX_RECALL_RETRIES
abbrev max_recall_retries : ℕ
max_recall_retries = 1

-- `again` are the stimuli that were pushed back, in order.
pub record State : Type 0 where
  pub buffer : Buffer
  pub retries : Dict ℕ ℕ
  pub again : List Stimulus

abbrev pub retries_of : ℕ → State → ℕ
retries_of i t = elim (Dict.get i t.retries) [ none ↦ 0 | some n ↦ n ]

unfoldable pub push_back : List Stimulus → State → State
unfolding push
push_back [] t = t
push_back (s ∷ l) t =
    let retries = retries_of s.ident t in
    let pushed : State = record {
      retries = Dict.put s.ident (suc retries) t.retries;
      buffer = push s t.buffer;
      again = t.again ++ s ∷ [];
    } in
    let skips = push_back l t in
    let goes_on = push_back l pushed in if leb max_recall_retries retries then skips else goes_on

-- The beats of a run: the uncovered stimuli of each.
unfoldable pub push_back_all : List (List Stimulus) → State → State
unfolding push_back
push_back_all [] t = t
push_back_all (l ∷ beats) t = push_back_all beats (push_back l t)
