-- ===== src/Decision/Scheduler.antt =====
-- services/decision-engine/internal/engine/scheduler.go: a claimed record's execution and a delayed
-- report. The Executor's answers are parameters.
pub mod Trails
pub mod Reports
use momotaro.Prelude.{
  ℕ, zero, suc, ◌+◌, ◌==◌, ◌||◌, not, Bool, true, false, Option, none, some, List, [], ◌∷◌, String,
  if◌then◌else◌,
}
use momotaro.Prelude.Int.{ℤ, pos}
use momotaro.Platform.Float.{Float}
use momotaro.Platform.Time.{Time, Duration}
use momotaro.Proto.{Uuid, ActionType, RecordState, Outcome, is_state}
use momotaro.Database.{Db}
use momotaro.Decision.Economics.{Model, Score, zero_score}
use momotaro.Decision.Guardrails.{AttemptHistory, DowntimeStatus}
use momotaro.Decision.Routing.{
  Routing, StateStep, DecisionTrace, empty_trace, decide_after_execute, rescoring_path,
  score_and_route, is_nudge,
}
use momotaro.Decision.Engine.{
  EngineConfig, AuditEvent, recovered_delta, first_answer, first_state, final_state,
}
use momotaro.Decision.Schedule.{next_due}
use momotaro.Decision.Store.Claim.{claim_due, claim_batch_size, load_nudged}
use momotaro.Decision.Store.Reads.{load_attempt_history, load_downtime_status}
use momotaro.Decision.Store.Writes.{
  StoreError, Result, ok, err, ClaimedRecord, record_outcome, record_rescore, apply_resumed_outcome,
}

pub record ExecuteResponse : Type 0 where
  pub outcome : Outcome
  pub cost_paise : ℤ

abbrev max_execute_attempts : ℕ
max_execute_attempts = 3

abbrev pub is_failure : Outcome → Bool
is_failure Outcome.failure = true
is_failure _ = false

-- What becomes of a claimed record: only `recorded` changes the database.
pub data Processed (F : Type 0) : Type 0 where
  dead_lettered : Processed F
  failed : StoreError → Processed F
  recorded : Db F → AuditEvent → Processed F

-- The results of `ResumeNudge`.
-- The database at the reads of `ResumeNudge`, each of which is outside its transaction.
pub record ReportReads (F : Type 0) : Type 0 where
  pub at_load : Db F
  pub at_history : Db F
  pub at_downtime : Db F

-- Reads with nothing between them.
abbrev pub all_at : {F : Type 0} → Db F → ReportReads F
all_at db = record { at_load = db; at_history = db; at_downtime = db }

pub data Resumed (F : Type 0) : Type 0 where
  discarded : RecordState → Resumed F
  failed : StoreError → Resumed F
  applied : RecordState → Db F → AuditEvent → Resumed F

module _ {F : Type 0} where
  -- `composeMessage`: only a nudge has a message, and composing it can fail.
  abbrev compose_message :
      (ClaimedRecord F → ℕ → Option String) → ClaimedRecord F → ℕ → Option String
  compose_message compose c n = if is_nudge c.pending_action then compose c n else some ""

  abbrev execute_once :
      (ClaimedRecord F → ℕ → Option String)
      → (ClaimedRecord F → ℕ → String → ℕ → Option ExecuteResponse)
      → ClaimedRecord F
      → ℕ
      → ℕ
      → Option (ExecuteResponse × String)
  execute_once compose execute c n attempt = elim (compose_message compose c n) [
    | none ↦ none
    | some message ↦ elim (execute c n message attempt) [
      | none ↦ none
      | some resp ↦ some (resp, message)
    ]
  ]

  unfoldable pub execute_with_retry :
      (ClaimedRecord F → ℕ → Option String)
      → (ClaimedRecord F → ℕ → String → ℕ → Option ExecuteResponse)
      → ClaimedRecord F
      → ℕ
      → Option (ExecuteResponse × String)
  execute_with_retry compose execute c n =
      first_answer max_execute_attempts (execute_once compose execute c n) 1

  abbrev pub event_of : ClaimedRecord F → RecordState → RecordState → Time → AuditEvent
  event_of c from to now = record {
    record_id = c.record_id;
    batch_id = c.batch_id;
    from_state = from;
    to_state = to;
    recovered_delta_paise = recovered_delta to c.amount_paise;
    timestamp = now;
  }

  abbrev recorded_or_failed : AuditEvent → Result (Db F) → Processed F
  recorded_or_failed e (ok db) = Processed.recorded db e
  recorded_or_failed e (err x) = Processed.failed x

  abbrev pub applied_or_discarded :
      RecordState → RecordState → AuditEvent → Result (Bool × Db F) → Resumed F
  applied_or_discarded state final e (err x) = Resumed.failed x
  applied_or_discarded state final e (ok (false, db)) = Resumed.discarded state
  applied_or_discarded state final e (ok (true, db)) = Resumed.applied final db e

module _ {F : Type 0} ⦃fl : Float F⦄ where
  abbrev pub route_again :
      Model → EngineConfig F → ClaimedRecord F → AttemptHistory → DowntimeStatus → Time → Routing F
  route_again m cfg c h d now = score_and_route m cfg.guardrails c.bucket h d c.amount_paise now

  abbrev pub due_again : ℕ → EngineConfig F → ClaimedRecord F → RecordState → Time → Option Time
  due_again zone cfg c state now =
      next_due zone c.bucket c.type state now cfg.retry_delay cfg.retry_mandate_lead_time
        cfg.nudge_delay cfg.time_scale

  unfoldable pub handle_failed_attempt :
      ℕ → Model → EngineConfig F → ClaimedRecord F → ℕ → ℤ → Time → Db F → Processed F
  handle_failed_attempt zone m cfg c n cost now db = elim (load_attempt_history c.record_id db) [
    | err x ↦ Processed.failed x
    | ok h ↦
        let r = route_again m cfg c h (load_downtime_status c.instrument_ref db) now in
        let steps = rescoring_path c.claimed r.state r.why in
        recorded_or_failed (event_of c (first_state steps) r.state now) (
          record_rescore c steps r.pending_action r.score r.trace (due_again zone cfg c r.state now)
            n cost now db)
  ]

  -- `process` behind the Executor's answer.
  unfoldable pub process_answer :
      ℕ
      → Model
      → EngineConfig F
      → ClaimedRecord F
      → ExecuteResponse
      → String
      → Time
      → Db F
      → Processed F
  process_answer zone m cfg c resp message now db =
      let (to, why) = decide_after_execute {F = F} c.pending_action resp.outcome in
      if is_failure resp.outcome
      then handle_failed_attempt zone m cfg c (c.attempt_count + 1) resp.cost_paise now db
      else recorded_or_failed (event_of c c.claimed to now)
          (record_outcome c to why (c.attempt_count + 1) resp.cost_paise message now db)

  unfoldable pub process :
      ℕ
      → Model
      → EngineConfig F
      → (ClaimedRecord F → ℕ → Option String)
      → (ClaimedRecord F → ℕ → String → ℕ → Option ExecuteResponse)
      → ClaimedRecord F
      → Time
      → Db F
      → Processed F
  process zone m cfg compose execute c now db =
      elim (execute_with_retry compose execute c (c.attempt_count + 1)) [
        | none ↦ Processed.dead_lettered
        | some (resp, message) ↦ process_answer zone m cfg c resp message now db
      ]

  -- The end of `ResumeNudge`: the report is applied under the row's lock.
  unfoldable pub apply_report :
      ClaimedRecord F
      → RecordState
      → ℕ
      → List (StateStep F)
      → ActionType
      → Score F
      → DecisionTrace F
      → Option Time
      → Time
      → Db F
      → Resumed F
  apply_report c state n steps pending score t due now db =
      applied_or_discarded state (final_state steps)
        (event_of c (first_state steps) (final_state steps) now)
        (apply_resumed_outcome c n steps pending score t due (pos 0) now db)

  -- The branches of `ResumeNudge` by outcome, for a record that was read at rest in Nudged.
  unfoldable pub resume_outcome :
      ℕ
      → Model
      → EngineConfig F
      → ClaimedRecord F
      → RecordState
      → ℕ
      → Outcome
      → Time
      → ReportReads F
      → Db F
      → Resumed F
  resume_outcome zone m cfg c state n Outcome.success now reads db =
      let (to, why) = decide_after_execute {F = F} c.pending_action Outcome.success in
      apply_report c state n (record { from = RecordState.nudged; to = to; why = why } ∷ [])
        ActionType.unspecified zero_score empty_trace none now db
  resume_outcome zone m cfg c state n Outcome.failure now reads db =
      elim (load_attempt_history c.record_id reads.at_history) [
        | err x ↦ Resumed.failed x
        | ok h ↦
            let r =
              route_again m cfg c h (load_downtime_status c.instrument_ref reads.at_downtime) now in
            apply_report c state n (rescoring_path c.claimed r.state r.why) r.pending_action r.score
              r.trace (due_again zone cfg c r.state now) now db
      ]
  resume_outcome zone m cfg c state n _ now reads db = Resumed.discarded state

  -- `ResumeNudge`: its clock is read first, then the database at each of its reads, and the report is
  -- applied to the database that the last transaction finds.
  unfoldable pub resume_nudge :
      ℕ → Model → EngineConfig F → Uuid → ℕ → Outcome → Time → ReportReads F → Db F → Resumed F
  resume_nudge zone m cfg id n outcome now reads db = elim (load_nudged id reads.at_load) [
    | none ↦ Resumed.discarded RecordState.unspecified
    | some (c, state) ↦
        if not (is_state state RecordState.nudged) || not (c.attempt_count == n)
        then Resumed.discarded state
        else resume_outcome zone m cfg c state n outcome now reads db
  ]

  -- The database behind a processed record.
  abbrev pub after : Processed F → Db F → Db F
  after Processed.dead_lettered db = db
  after (Processed.failed e) db = db
  after (Processed.recorded db' e) db = db'

  -- The loop of `tick`, each record with the time at which it is processed.
  process_all :
      ℕ
      → Model
      → EngineConfig F
      → (ClaimedRecord F → ℕ → Option String)
      → (ClaimedRecord F → ℕ → String → ℕ → Option ExecuteResponse)
      → (ClaimedRecord F → Time)
      → List (ClaimedRecord F)
      → Db F
      → Db F
  process_all zone m cfg compose execute clock [] db = db
  process_all zone m cfg compose execute clock (c ∷ cs) db =
      process_all zone m cfg compose execute clock cs
        (after (process zone m cfg compose execute c (clock c) db) db)

  unfoldable pub tick :
      ℕ
      → Model
      → EngineConfig F
      → (ClaimedRecord F → ℕ → Option String)
      → (ClaimedRecord F → ℕ → String → ℕ → Option ExecuteResponse)
      → (ClaimedRecord F → Time)
      → (Uuid → Bool)
      → Time
      → Db F
      → Result (Db F)
  unfolding process_all
  tick zone m cfg compose execute clock locked now db =
      elim (claim_due locked now claim_batch_size db) [
        | err x ↦ err x
        | ok (cs, db') ↦ ok (process_all zone m cfg compose execute clock cs db')
      ]
