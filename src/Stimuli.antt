-- ===== src/Stimuli.antt =====
-- runtime/stimuli: the queue of stimuli, the channels that feed it, and the batch tracker.
pub mod Buffer
pub mod Channels
pub mod BatchTracker
use krakey_bot.Base.{ℕ, String, Bool}

-- models/stimulus.py. `ident` is the object's identity, Python's `id(s)`; `timestamp` counts the
-- ticks of the clock. Of `metadata` the program uses one counter, kept beside the objects
-- in the models that read it.
pub record Stimulus : Type 0 where
  pub ident : ℕ
  pub type : String
  pub source : String
  pub content : String
  pub timestamp : ℕ
  pub adrenalin : Bool

-- What the environment supplies when an object is made: its identity, and `datetime.now()`.
pub record Stamp : Type 0 where
  pub ident : ℕ
  pub now : ℕ
