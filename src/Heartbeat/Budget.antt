-- ===== src/Heartbeat/Budget.antt =====
-- engines/heartbeat/orchestrator.py, `enforce_input_budget`: the oldest rounds leave the window until the
-- prompt fits the model's input. The prompt is a function of the recall result and of the window; the
-- recall of a fresh session is a question to the world.
pub mod Fits
use krakey_bot.Base.{
  ℕ, zero, suc, String, Bool, true, false, ◌||◌, List, [], ◌∷◌, Option, none, some, if◌then◌else◌,
  leb, is_empty,
}
use krakey_bot.Base.Action.{Action, Outcome, returned, raised, pure, throw, attempt, ◌>>=◌, ◌>>◌}
use krakey_bot.History.{ExplicitHistoryRound}
use krakey_bot.Recall.{RecallResult}
use krakey_bot.Compact.{Error, type_error, World, Compactor, ask, pop, compact_round}

-- A prompt with the recall result that it was built from.
pub record Built : Type 0 where
  pub prompt : String
  pub recall : RecallResult

module _ (world : World) (build_self_prompt : RecallResult → List ExplicitHistoryRound → String)
    (fresh_recall : ℕ → Outcome Error RecallResult) (include : Bool) (budget : ℕ) where
  abbrev pub built : RecallResult → Compactor → Built
  built r c = record { prompt = build_self_prompt r c.window.rounds; recall = r }

  -- The prompt is sent as it is: it fits, or there is no round left to prune.
  abbrev pub settled : Built → Compactor → Bool
  settled b c = leb (world.estimate_tokens b.prompt) budget || is_empty c.window.rounds

  unfoldable pub rebuilt : Action Error Compactor Built
  unfolding ask
  rebuilt = ask world fresh_recall >>= λ r c. pure (built r c) c

  -- `compact_round` under `except Exception`.
  unfoldable pub prune : ExplicitHistoryRound → Action Error Compactor (Unit {0})
  unfolding compact_round
  prune oldest = attempt (compact_round world include oldest) (λ x. pure tt)

  abbrev pub prune_popped : Option ExplicitHistoryRound → Action Error Compactor Built
  unfolding prune rebuilt
  prune_popped none = throw type_error
  prune_popped (some oldest) = prune oldest >> rebuilt

  -- The loop, with the iterations that are left.
  unfoldable pub enforce_loop : ℕ → Built → Action Error Compactor Built
  unfolding pop prune_popped
  enforce_loop zero b c = pure b c
  enforce_loop (suc left) b c =
      let round = pop world >>= λ o. prune_popped o >>= λ b'. enforce_loop left b' in
      (if settled b c then pure b else round) c

  unfoldable pub enforce_input_budget : RecallResult → Action Error Compactor Built
  unfolding enforce_loop
  enforce_input_budget recall_result c = enforce_loop 10 (built recall_result c) c
