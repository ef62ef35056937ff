-- ===== src/Proto.antt =====
-- The enums of proto/common/v1/common.proto. A Go enum is an `int32` that may hold a number the
-- file does not name: `unrecognized` keeps it where the code can meet one. A record state and a
-- record type are read from their names in the database, where an unknown name gives 0.
use momotaro.Prelude.{ℕ, ◌≡◌, Bool, true, false, arith, ◌==◌}

-- Record, batch and attempt ids are UUIDs, kept as their numbers.
abbrev pub Uuid : Type 0
Uuid = ℕ

pub data RecordType : Type 0 where
  unspecified payment mandate checkout invoice : RecordType

pub data RootCauseBucket : Type 0 where
  unspecified transient_bank insufficient_funds hard_decline user_action_needed : RootCauseBucket
  risk_hold abandonment overdue : RootCauseBucket
  unrecognized : ℕ → RootCauseBucket

pub data ActionType : Type 0 where
  unspecified retry nudge_method_update nudge_reminder escalate none : ActionType
  unrecognized : ℕ → ActionType

pub data RecordState : Type 0 where
  unspecified new scoring retry_scheduled retrying nudge_scheduled nudged : RecordState
  recovered escalated closed_uneconomic : RecordState

pub data Outcome : Type 0 where
  unspecified success failure pending : Outcome
  unrecognized : ℕ → Outcome

pub data Source : Type 0 where
  unspecified llm rules_fallback template_fallback : Source

pub RecordState-discrete : Discrete RecordState
RecordState-discrete = hlevel

-- Equality of the enum values that the code compares.
abbrev pub is_retry : ActionType → Bool
is_retry ActionType.retry = true
is_retry _ = false

abbrev pub is_escalate : ActionType → Bool
is_escalate ActionType.escalate = true
is_escalate _ = false

abbrev pub is_unspecified : ActionType → Bool
is_unspecified ActionType.unspecified = true
is_unspecified _ = false

abbrev pub is_state : RecordState → RecordState → Bool
is_state RecordState.unspecified RecordState.unspecified = true
is_state RecordState.new RecordState.new = true
is_state RecordState.scoring RecordState.scoring = true
is_state RecordState.retry_scheduled RecordState.retry_scheduled = true
is_state RecordState.retrying RecordState.retrying = true
is_state RecordState.nudge_scheduled RecordState.nudge_scheduled = true
is_state RecordState.nudged RecordState.nudged = true
is_state RecordState.recovered RecordState.recovered = true
is_state RecordState.escalated RecordState.escalated = true
is_state RecordState.closed_uneconomic RecordState.closed_uneconomic = true
is_state _ _ = false

pub is_state→eq : (a b : RecordState) → is_state a b ≡ true → a ≡ b
is_state→eq a b h = ground arith

abbrev pub is_action : ActionType → ActionType → Bool
is_action ActionType.unspecified ActionType.unspecified = true
is_action ActionType.retry ActionType.retry = true
is_action ActionType.nudge_method_update ActionType.nudge_method_update = true
is_action ActionType.nudge_reminder ActionType.nudge_reminder = true
is_action ActionType.escalate ActionType.escalate = true
is_action ActionType.none ActionType.none = true
is_action (ActionType.unrecognized n) (ActionType.unrecognized m) = n == m
is_action _ _ = false
