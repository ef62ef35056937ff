-- ===== src/Database.antt =====
-- The Postgres tables that the services share (migrations/), as lists of rows with their keys, and
-- the statements that the code runs on them. An enum column holds the value's name, and a name
-- that the enum does not have is read back as the unspecified value.
pub mod Rows
pub mod Keys
use momotaro.Prelude.{
  ℕ, suc, ◌==◌, ◌&&◌, Bool, true, false, Option, none, some, List, [], ◌∷◌, ◌++◌, String,
  if◌then◌else◌,
}
use momotaro.Prelude.Int.{ℤ}
use momotaro.Platform.Time.{Time}
use momotaro.Proto.{Uuid, RecordType, RootCauseBucket, ActionType, RecordState, Outcome, Source}
use momotaro.Decision.Routing.{StepReason, DecisionTrace}

pub record RecordRow : Type 0 where
  pub id : Uuid
  pub batch_id : Uuid
  pub type : RecordType
  pub amount_paise : ℤ
  pub instrument_ref : Option String
  pub created_at : Time

pub record StateRow (F : Type 0) : Type 0 where
  pub record_id : Uuid
  pub current_state : RecordState
  pub attempt_count : ℕ
  pub root_cause_bucket : Option RootCauseBucket
  pub pending_action : Option ActionType
  pub due_at : Option Time
  pub ev_score_at_decision : Option F
  pub p_recovery_at_decision : Option F
  pub last_action_at : Time

pub record AuditRow (F : Type 0) : Type 0 where
  pub record_id : Uuid
  pub batch_id : Uuid
  pub ts : Time
  pub from_state : RecordState
  pub to_state : RecordState
  pub why : StepReason F
  pub rationale : Option String
  pub source : Option Source
  pub decision_trace : Option (DecisionTrace F)
  pub attempt_number : ℕ
  pub cost_paise : Option ℤ
  pub message_text : Option String

pub record AttemptRow (F : Type 0) : Type 0 where
  pub id : Uuid
  pub record_id : Uuid
  pub attempt_number : ℕ
  pub action_type : ActionType
  pub outcome : Outcome
  pub executed_at : Time
  pub cost_paise : ℤ
  pub message_text : String
  pub failure_code : String

pub record DowntimeRow : Type 0 where
  pub id : String
  pub method : String
  pub instrument_key : String
  pub severity : String
  pub scheduled : Bool
  pub begin_at : Time
  pub end_at : Option Time
  pub resolved_at : Option Time
  pub updated_at : Time

pub record Db (F : Type 0) : Type 0 where
  pub records : List RecordRow
  pub states : List (StateRow F)
  pub audit : List (AuditRow F)
  pub attempts : List (AttemptRow F)
  pub downtimes : List DowntimeRow

abbrev pub read_bucket : RootCauseBucket → RootCauseBucket
read_bucket (RootCauseBucket.unrecognized n) = RootCauseBucket.unspecified
read_bucket b = b

abbrev pub read_action : ActionType → ActionType
read_action (ActionType.unrecognized n) = ActionType.unspecified
read_action a = a

unfoldable pub find_record : Uuid → List RecordRow → Option RecordRow
find_record id [] = none
find_record id (r ∷ rs) = if r.id == id then some r else find_record id rs

module _ {F : Type 0} where
  unfoldable pub find_state : Uuid → List (StateRow F) → Option (StateRow F)
  find_state id [] = none
  find_state id (r ∷ rs) = if r.record_id == id then some r else find_state id rs

  -- `UPDATE record_state SET … WHERE record_id = id`.
  unfoldable pub update_state :
      Uuid → (StateRow F → StateRow F) → List (StateRow F) → List (StateRow F)
  update_state id f [] = []
  update_state id f (r ∷ rs) = (if r.record_id == id then f r else r) ∷ update_state id f rs

  -- The audit rows of one record, in the order they were written.
  unfoldable pub audit_of : Uuid → List (AuditRow F) → List (AuditRow F)
  audit_of id [] = []
  audit_of id (r ∷ rs) = let rest = audit_of id rs in if r.record_id == id then r ∷ rest else rest

  unfoldable pub find_attempt : Uuid → ℕ → List (AttemptRow F) → Option (AttemptRow F)
  find_attempt id n [] = none
  find_attempt id n (r ∷ rs) =
      if r.record_id == id && r.attempt_number == n then some r else find_attempt id n rs
