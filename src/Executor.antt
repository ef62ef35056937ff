-- ===== src/Executor.antt =====
-- services/executor/internal: the request check (server/validate.go), the router to the two ports
-- (ports/route.go), the table of attempts (attempt/store.go, attempt/await.go) and Execute
-- (server/server.go). The ports, the ids and the clocks are parameters.
pub mod Attempts
pub mod Once
pub mod Replay
pub mod Stubs
use momotaro.Prelude.{
  ℕ, zero, suc, ◌+◌, ◌==◌, ◌&&◌, not, Bool, true, false, Option, none, some, List, [], ◌∷◌, ◌++◌,
  String, leb, if◌then◌else◌,
}
use momotaro.Prelude.Int.{ℤ, pos, negsuc}
use momotaro.Platform.Time.{Time}
use momotaro.Proto.{Uuid, ActionType, Outcome, is_unspecified}
use momotaro.Database.{Db, AttemptRow, find_record, find_attempt}

pub data Channel : Type 0 where
  whatsapp sms : Channel

pub record RecoveryAction : Type 0 where
  pub outcome : Outcome
  pub immediate : Bool
  pub resolves_at : Time
  pub failure_code : String
  pub cost_paise : ℤ

pub record Notification : Type 0 where
  pub sent : Bool
  pub cost_paise : ℤ

-- `none` is an infrastructure failure.
pub record Ports : Type 0 where
  pub simulate_outcome : Uuid → ActionType → ℕ → Option RecoveryAction
  pub simulate_send : Uuid → Channel → String → Option Notification

-- `ports.Result`; 0 is the zero time.
pub record PortResult : Type 0 where
  pub outcome : Outcome
  pub cost_paise : ℤ
  pub failure_code : String
  pub resolves_at : Time

unfoldable pub channel_for : ActionType → Channel
channel_for ActionType.nudge_method_update = Channel.whatsapp
channel_for _ = Channel.sms

-- What a retry and a nudge share: a deferred answer is pending.
abbrev port_result : RecoveryAction → ℤ → PortResult
port_result out cost =
    if out.immediate
    then record {
      outcome = out.outcome;
      cost_paise = cost;
      failure_code = out.failure_code;
      resolves_at = 0;
    }
    else record {
      outcome = Outcome.pending;
      cost_paise = cost;
      failure_code = out.failure_code;
      resolves_at = out.resolves_at;
    }

unfoldable pub retry : Ports → Uuid → ActionType → ℕ → Option PortResult
retry ports id action n = elim (ports.simulate_outcome id action n) [
  | none ↦ none
  | some out ↦ some (port_result out out.cost_paise)
]

unfoldable pub nudge : Ports → Uuid → ActionType → ℕ → String → Option PortResult
unfolding channel_for
nudge ports id action n message = elim (ports.simulate_send id (channel_for action) message) [
  | none ↦ none
  | some sent ↦
      let answer = ports.simulate_outcome id action n in
      if not sent.sent
      then some (record {
        outcome = Outcome.failure;
        cost_paise = sent.cost_paise;
        failure_code = "NOTIFICATION_NOT_SENT";
        resolves_at = 0;
      })
      else elim answer [ none ↦ none | some out ↦ some (port_result out sent.cost_paise) ]
]

-- `Router.Execute`.
unfoldable pub route : Ports → Uuid → ActionType → ℕ → String → Option PortResult
unfolding retry nudge
route ports id ActionType.retry n message = retry ports id ActionType.retry n
route ports id ActionType.nudge_reminder n message =
    nudge ports id ActionType.nudge_reminder n message
route ports id ActionType.nudge_method_update n message =
    nudge ports id ActionType.nudge_method_update n message
route ports id ActionType.none n message =
    some
      (record { outcome = Outcome.success; cost_paise = pos 0; failure_code = ""; resolves_at = 0 })
route ports id ActionType.escalate n message = some (record {
  outcome = Outcome.failure;
  cost_paise = pos 0;
  failure_code = "ESCALATED_NO_AUTOMATED_ACTION";
  resolves_at = 0;
})
route ports id _ n message = none

-- `none` is an empty record id; the attempt number is an `int32`.
pub record ExecuteRequest : Type 0 where
  pub record_id : Option Uuid
  pub action_type : ActionType
  pub attempt_number : ℤ
  pub message : String

pub data InvalidRequest : Type 0 where
  record_id_required attempt_number_not_positive action_type_required : InvalidRequest

-- A request that passed the check.
pub record Attempt : Type 0 where
  pub record_id : Uuid
  pub attempt_number : ℕ
  pub action_type : ActionType
  pub message : String

pub data Checked : Type 0 where
  invalid : InvalidRequest → Checked
  valid : Attempt → Checked

abbrev validate_action : ExecuteRequest → Uuid → ℕ → Checked
validate_action req id n =
    if is_unspecified req.action_type
    then Checked.invalid InvalidRequest.action_type_required
    else Checked.valid (record {
      record_id = id;
      attempt_number = n;
      action_type = req.action_type;
      message = req.message;
    })

abbrev validate_number : ExecuteRequest → Uuid → ℤ → Checked
validate_number req id (pos zero) = Checked.invalid InvalidRequest.attempt_number_not_positive
validate_number req id (pos (suc n)) = validate_action req id (suc n)
validate_number req id (negsuc n) = Checked.invalid InvalidRequest.attempt_number_not_positive

unfoldable pub validate_execute : ExecuteRequest → Checked
validate_execute req = elim req.record_id [
  | none ↦ Checked.invalid InvalidRequest.record_id_required
  | some id ↦ validate_number req id req.attempt_number
]
