-- ===== src/Friction.antt =====
-- `template/scripts/agent_friction.py`: the log of friction events and the state of its review. This module has
-- the inputs of its functions and the ways in which they end early.
pub mod Events
pub mod State
pub mod Review
pub mod Routes
use dev_platform.Base.{ℕ, String, Option, List}
use dev_platform.Base.Json.{Json}

-- `SystemExit` and `FrictionLogError`, by the message; `uncaught` is any other exception.
pub data Fault : Type 0 where
  invalid_json : ℕ → Fault
  not_object : ℕ → Fault
  no_timestamp : ℕ → Fault
  unreadable_log : Fault
  unresolved : String → Fault
  blank_position : String → Fault
  invalid_position : String → Fault
  has_own_id : String → Fault
  invalid_state : Fault
  invalid_count : Fault
  invalid_routes : Fault
  invalid_checkpoints : Fault
  duplicate_route : String → Fault
  min_events_too_small : Fault
  cursor_ahead : Fault
  no_report : Fault
  report_outside : Fault
  unknown_event : String → Fault
  cursor_backwards : Fault
  uncaught : Fault

-- `json.loads`, the instant that `parse_time` reads, the first digits of the hash of a text, and the number of a
-- text that `LEGACY_POSITIONAL_ID_RE` matches.
pub record Readers : Type 0 where
  pub loads : String → Option Json
  pub instant : Json → Option ℕ
  pub digest : String → String
  pub positional : String → Option ℕ

-- The log: no file, a file that cannot be read, or its lines.
pub data LogFile : Type 0 where
  missing : LogFile
  garbled : LogFile
  lines : List String → LogFile

-- The state: no file, a text that is no JSON, or the value read.
pub data StateFile : Type 0 where
  absent : StateFile
  broken : StateFile
  stored : Json → StateFile
