-- ===== src/Decision/Engine.antt =====
-- services/decision-engine/internal/engine/engine.go: the handler of one raw.events message. The
-- Classifier's answers are parameters; what the handler does to the outside is its result.
pub mod Trails
use momotaro.Prelude.{
  ℕ, zero, suc, ◌+◌, Bool, true, false, Option, none, some, List, [], ◌∷◌, String, if◌then◌else◌,
}
use momotaro.Prelude.Int.{ℤ, pos}
use momotaro.Platform.Float.{Float}
use momotaro.Platform.Time.{Time, Duration}
use momotaro.Proto.{
  Uuid, RecordType, RootCauseBucket, ActionType, RecordState, Source, is_escalate, is_state,
}
use momotaro.Database.{Db, StateRow, find_state}
use momotaro.Decision.Economics.{Model, Score, zero_score}
use momotaro.Decision.Guardrails.{GuardrailConfig, AttemptHistory, DowntimeStatus}
use momotaro.Decision.Routing.{
  Routing, StateStep, StepReason, DecisionTrace, empty_trace, direct_path, scoring_path,
  score_and_route,
}
use momotaro.Decision.Schedule.{next_due}
use momotaro.Decision.Store.Reads.{load_attempt_history, load_downtime_status}
use momotaro.Decision.Store.Writes.{StoreError, Result, ok, err, Scheduled, last_step, schedule_new}

pub record EngineConfig (F : Type 0) : Type 0 where
  pub retry_delay : Duration
  pub nudge_delay : Duration
  pub retry_mandate_lead_time : Duration
  pub time_scale : F
  pub guardrails : GuardrailConfig
  pub classify_confidence_threshold : F

pub record RawEvent : Type 0 where
  pub record_id : Uuid
  pub batch_id : Uuid
  pub type : RecordType
  pub amount_paise : ℤ
  pub instrument_ref : Option String  -- `none` is ""

pub record ClassifyResponse (F : Type 0) : Type 0 where
  pub bucket : RootCauseBucket
  pub confidence : F
  pub recommended_action : ActionType
  pub rationale : String
  pub source : Source

-- The results of `decide`.
pub record Decision (F : Type 0) : Type 0 where
  pub steps : List (StateStep F)
  pub pending_action : ActionType
  pub score : Score F
  pub trace : DecisionTrace F

pub data DeadLetter : Type 0 where
  malformed classify_failed record_not_found record_deleted : DeadLetter

pub record AuditEvent : Type 0 where
  pub record_id : Uuid
  pub batch_id : Uuid
  pub from_state : RecordState
  pub to_state : RecordState
  pub recovered_delta_paise : ℤ
  pub timestamp : Time

-- What becomes of a message: `fatal` stops the consumer, all else commits the offset.
pub data Handled (F : Type 0) : Type 0 where
  skipped : Handled F
  dead_lettered : DeadLetter → Handled F
  scheduled : Db F → AuditEvent → Handled F
  fatal : StoreError → Handled F

abbrev pub recovered_delta : RecordState → ℤ → ℤ
recovered_delta RecordState.recovered amount = amount
recovered_delta _ amount = pos 0

-- `steps[0].From` and `steps[len(steps)-1].To`: the code panics without steps, and its paths have
-- some.
abbrev pub first_state : {F : Type 0} → List (StateStep F) → RecordState
first_state [] = RecordState.unspecified
first_state (s ∷ ss) = s.from

abbrev pub final_state : {F : Type 0} → List (StateStep F) → RecordState
final_state [] = RecordState.unspecified
final_state (s ∷ ss) = (last_step s ss).to

abbrev pub max_classify_attempts : ℕ
max_classify_attempts = 3

-- The first attempt, counted from `attempt`, that gets an answer.
abbrev pub first_answer : {A : Type 0} → ℕ → (ℕ → Option A) → ℕ → Option A
first_answer zero call attempt = none
first_answer (suc left) call attempt =
    let later = first_answer left call (attempt + 1) in
    elim (call attempt) [ some a ↦ some a | none ↦ later ]

unfoldable pub classify_with_retry :
    {F : Type 0} → (ℕ → Option (ClassifyResponse F)) → Option (ClassifyResponse F)
classify_with_retry classify = first_answer max_classify_attempts classify 1

unfoldable pub record_state_exists : {F : Type 0} → Uuid → Db F → Bool
record_state_exists id db = elim (find_state id db.states) [ none ↦ false | some _ ↦ true ]

module _ {F : Type 0} ⦃fl : Float F⦄ where
  abbrev escalated_directly : StepReason F → Decision F
  escalated_directly why = record {
    steps = direct_path RecordState.escalated why;
    pending_action = ActionType.unspecified;
    score = zero_score;
    trace = empty_trace;
  }

  abbrev scored : Routing F → Decision F
  scored r = record {
    steps = scoring_path r.state r.why;
    pending_action = r.pending_action;
    score = r.score;
    trace = r.trace;
  }

  unfoldable pub decide :
      Model
      → EngineConfig F
      → ClassifyResponse F
      → AttemptHistory
      → DowntimeStatus
      → ℤ
      → Time
      → Decision F
  decide m cfg resp h d amount now =
      if fl.lt resp.confidence cfg.classify_confidence_threshold
      then escalated_directly (
          if is_escalate resp.recommended_action
          then StepReason.classifier_recommended_escalation
          else StepReason.confidence_below_threshold)
      else if is_escalate resp.recommended_action
      then escalated_directly StepReason.classifier_recommended_escalation
      else scored (score_and_route m cfg.guardrails resp.bucket h d amount now)

  abbrev pub scheduled_of : RawEvent → ClassifyResponse F → Scheduled
  scheduled_of e resp = record {
    record_id = e.record_id;
    batch_id = e.batch_id;
    bucket = resp.bucket;
    rationale = resp.rationale;
    source = resp.source;
  }

  abbrev pub schedule_failed : StoreError → Handled F
  schedule_failed StoreError.record_not_found = Handled.dead_lettered DeadLetter.record_deleted
  schedule_failed e = Handled.fatal e

  abbrev pub scheduled_or_failed : AuditEvent → Result (Db F) → Handled F
  scheduled_or_failed e (ok db) = Handled.scheduled db e
  scheduled_or_failed e (err x) = schedule_failed x

  -- The end of the handler, with the decision made.
  unfoldable pub schedule_decision :
      ℕ → EngineConfig F → RawEvent → ClassifyResponse F → Decision F → Time → Db F → Handled F
  schedule_decision zone cfg e resp d now db =
      let final = final_state d.steps in
      let due =
        next_due zone resp.bucket e.type final now cfg.retry_delay cfg.retry_mandate_lead_time
          cfg.nudge_delay cfg.time_scale in
      scheduled_or_failed
        (record {
          record_id = e.record_id;
          batch_id = e.batch_id;
          from_state = first_state d.steps;
          to_state = final;
          recovered_delta_paise = recovered_delta final e.amount_paise;
          timestamp = now;
        })
        (schedule_new (scheduled_of e resp) d.steps d.pending_action d.score d.trace due now db)

  abbrev pub history_failed : StoreError → Handled F
  history_failed StoreError.record_not_found = Handled.dead_lettered DeadLetter.record_not_found
  history_failed e = Handled.fatal e

  -- The handler behind the classification.
  unfoldable pub handle_classified :
      ℕ → Model → EngineConfig F → RawEvent → ClassifyResponse F → Time → Db F → Handled F
  handle_classified zone m cfg e resp now db = elim (load_attempt_history e.record_id db) [
    | err x ↦ history_failed x
    | ok h ↦
        schedule_decision zone cfg e resp
          (decide m cfg resp h (load_downtime_status e.instrument_ref db) e.amount_paise now) now db
  ]

  unfoldable pub handle_message :
      ℕ
      → Model
      → EngineConfig F
      → (RawEvent → ℕ → Option (ClassifyResponse F))
      → Time
      → Option RawEvent
      → Db F
      → Handled F
  handle_message zone m cfg classify now none db = Handled.dead_lettered DeadLetter.malformed
  handle_message zone m cfg classify now (some e) db =
      if record_state_exists e.record_id db
      then Handled.skipped
      else elim (classify_with_retry (classify e)) [
        | none ↦ Handled.dead_lettered DeadLetter.classify_failed
        | some resp ↦ handle_classified zone m cfg e resp now db
      ]
