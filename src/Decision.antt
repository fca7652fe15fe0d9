-- ===== src/Decision.antt =====
-- interfaces/engines/decision.py: what a decision is translated into.
use krakey_bot.Base.{ℕ, String, Bool, List}
use krakey_bot.Json.{Json, Fields}

pub record ToolCall : Type 0 where
  pub tool : String
  pub intent : String
  pub params : Fields
  pub adrenalin : Bool

pub record ParseFailure : Type 0 where
  pub payload : String
  pub error : String
  pub block_index : ℕ
  pub salvaged : Bool

pub record DecisionResult : Type 0 where
  pub tool_calls : List ToolCall
  pub memory_writes : List Json
  pub sleep : Bool
  pub parse_failures : List ParseFailure
