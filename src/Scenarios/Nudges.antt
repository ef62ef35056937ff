-- ===== src/Scenarios/Nudges.antt =====
-- One record through a nudge: a message, the claim, a pending delivery, and the delayed report.
use momotaro.Prelude.{ℕ, ◌+◌, ◌*◌, ◌≡◌, refl, false, Option, none, some, List, [], ◌∷◌, String}
use momotaro.Prelude.Int.{pos, ◌+ℤ◌, saturate64, wrap64}
use momotaro.Platform.Time.{Time, nanos_per_hour}
use momotaro.Proto.{RecordState, Outcome, ActionType, RootCauseBucket, RecordType}
use momotaro.Database.{Db, StateRow}
use momotaro.Decision.Engine.{AuditEvent, Handled}
use momotaro.Decision.Scheduler.{ExecuteResponse, Processed, all_at, resume_nudge}
use momotaro.Decision.Scheduler.Trails.{OnResumed}
use momotaro.Decision.Scheduler.Reports.{resume_nudge-Trails}
use momotaro.Decision.Store.Trails.{Trails}
use momotaro.Decision.Store.Writes.{Result, ok, ClaimedRecord}
use momotaro.Decision.System.{system, Step, Run}
use momotaro.Decision.System.Claims.{Kept}
use momotaro.Decision.System.Invariant.{run-Kept, start-Kept}
use momotaro.Decision.System.Races.{AppliedAs, claimed_nudge-accepts_last_report}
use momotaro.Scenarios.{Fixed, fixed, config, nudging, event, ingested, start_time, record_row}
use momotaro.Scenarios.Runs.{answering, stored, published, claimed_db, compose, recorded}
use momotaro.Decision.Engine.{AuditEvent, Handled, handle_message}
use momotaro.Decision.Scheduler.{ExecuteResponse, Processed, process}
use momotaro.Decision.Store.Claim.{claim_due}
use momotaro.Scenarios.{Fixed, fixed, config, event, ingested, start_time}
use momotaro.Decision.Engine.{
  classify_with_retry, record_state_exists, decide, schedule_decision, handle_classified,
  handle_message,
}
use momotaro.Decision.Scheduler.{execute_with_retry, process_answer, process}
use momotaro.Decision.Store.Writes.{
  null_if_unspecified, encode_decision_trace, score_columns, new_audit, schedule_new,
  record_outcome,
}
use momotaro.Decision.Store.Claim.{
  claimable, due_rows, claim_row, claimed_record, claim_rows, claim_due,
}
use momotaro.Decision.Store.Reads.{load_attempt_history, load_downtime_status}
use momotaro.Decision.Routing.{
  decide_for_action, decide_after_execute, claimed_state, scoring_path, direct_path, score_actions,
  refused, routed, priced, score_and_route,
}
use momotaro.Decision.Schedule.{
  contact_hour_window, scale_duration, base_retry_due_at, retry_due_at, due_at_for, next_due,
}
use momotaro.Decision.Guardrails.{
  reason, allows, recovery_window_closed, retry_budget_spent, contact_blocked, apply_guardrails,
  permitted_actions, attempt_number_for, downtime_blocks_retry, apply_downtime_guardrail,
}
use momotaro.Decision.Economics.{
  attempt_value, lift_bps, cost_of, score, score_all, keep_better, best_of,
}
use momotaro.Database.{find_record, find_state, update_state, audit_of}
use momotaro.Scenarios.{fixed}
use momotaro.Audit.{verify_one, verify_invariants}
use momotaro.Audit.Store.{scan_records, verify_batch}
use momotaro.Decision.Scheduler.{Resumed, resume_outcome, apply_report}
use momotaro.Decision.Store.Claim.{load_nudged}
use momotaro.Decision.Store.Writes.{apply_resumed_outcome, rescore_audit}

abbrev later : Time
later = start_time + 24 * nanos_per_hour

abbrev handled : Handled Fixed
handled = handle_message 0 nudging config answering start_time (some event) ingested

abbrev claimed : Result (List (ClaimedRecord Fixed) × Db Fixed)
claimed = claim_due (λ id. false) later 20 (stored handled)

-- The delivery of the nudge has no outcome yet.
abbrev executor : ClaimedRecord Fixed → ℕ → String → ℕ → Option ExecuteResponse
executor c n message attempt = some (record { outcome = Outcome.pending; cost_paise = pos 25 })

abbrev the_claim : ClaimedRecord Fixed
the_claim = record {
  record_id = 7;
  batch_id = 1;
  from_state = RecordState.nudge_scheduled;
  claimed = RecordState.nudged;
  pending_action = ActionType.nudge_method_update;
  attempt_count = 0;
  amount_paise = pos 500000;
  bucket = RootCauseBucket.transient_bank;
  type = RecordType.invoice;
  ev_score_at_decision = 999750000;
  p_recovery_at_decision = 2000;
  instrument_ref = none;
}

abbrev processed : Processed Fixed
processed = process 0 nudging config compose executor the_claim later (claimed_db claimed)

abbrev announced : Processed Fixed → AuditEvent
announced (Processed.recorded db e) = e
announced _ = published handled

handled_it : handled ≡ Handled.scheduled (stored handled) (published handled)
unfolding classify_with_retry record_state_exists decide schedule_decision handle_classified
    handle_message execute_with_retry process_answer process null_if_unspecified
    encode_decision_trace score_columns new_audit schedule_new record_outcome claimable due_rows
    claim_row claimed_record claim_rows claim_due load_attempt_history load_downtime_status
    decide_for_action decide_after_execute claimed_state scoring_path direct_path score_actions
    refused routed priced score_and_route scale_duration base_retry_due_at retry_due_at due_at_for
    next_due reason allows recovery_window_closed retry_budget_spent contact_blocked
    apply_guardrails permitted_actions attempt_number_for downtime_blocks_retry
    apply_downtime_guardrail attempt_value lift_bps cost_of score score_all keep_better best_of
    find_record find_state update_state audit_of fixed saturate64 wrap64 ◌+ℤ◌ contact_hour_window
handled_it = refl

claimed_it : claimed ≡ ok (the_claim ∷ [], claimed_db claimed)
unfolding classify_with_retry record_state_exists decide schedule_decision handle_classified
    handle_message execute_with_retry process_answer process null_if_unspecified
    encode_decision_trace score_columns new_audit schedule_new record_outcome claimable due_rows
    claim_row claimed_record claim_rows claim_due load_attempt_history load_downtime_status
    decide_for_action decide_after_execute claimed_state scoring_path direct_path score_actions
    refused routed priced score_and_route scale_duration base_retry_due_at retry_due_at due_at_for
    next_due reason allows recovery_window_closed retry_budget_spent contact_blocked
    apply_guardrails permitted_actions attempt_number_for downtime_blocks_retry
    apply_downtime_guardrail attempt_value lift_bps cost_of score score_all keep_better best_of
    find_record find_state update_state audit_of fixed saturate64 wrap64 ◌+ℤ◌ contact_hour_window
claimed_it = refl

processed_it : processed ≡ Processed.recorded (recorded processed) (announced processed)
unfolding classify_with_retry record_state_exists decide schedule_decision handle_classified
    handle_message execute_with_retry process_answer process null_if_unspecified
    encode_decision_trace score_columns new_audit schedule_new record_outcome claimable due_rows
    claim_row claimed_record claim_rows claim_due load_attempt_history load_downtime_status
    decide_for_action decide_after_execute claimed_state scoring_path direct_path score_actions
    refused routed priced score_and_route scale_duration base_retry_due_at retry_due_at due_at_for
    next_due reason allows recovery_window_closed retry_budget_spent contact_blocked
    apply_guardrails permitted_actions attempt_number_for downtime_blocks_retry
    apply_downtime_guardrail attempt_value lift_bps cost_of score score_all keep_better best_of
    find_record find_state update_state audit_of fixed saturate64 wrap64 ◌+ℤ◌ contact_hour_window
processed_it = refl

abbrev sent : Run (system ingested []) (system (recorded processed) [])
sent =
    Run.next
      (Run.next
        (Run.next Run.stop (Step.message 0 nudging config answering start_time event handled_it))
        (Step.picked (λ id. false) later 20 claimed_it))
      (Step.processed 0 nudging config compose executor later the_claim [] [] processed_it)

sent-Kept : Kept (recorded processed) []
sent-Kept =
    run-Kept Fixed (system ingested []) (system (recorded processed) []) sent (((tt, tt), tt), tt)
      (start-Kept Fixed ingested (refl, refl))

-- The record waits in Nudged for the report of its first attempt.
resume_nudge-Trails_example : OnResumed Trails (
    resume_nudge 0 nudging config 7 1 Outcome.success later
      (all_at (recorded processed))
      (recorded processed))
resume_nudge-Trails_example =
    resume_nudge-Trails Fixed 0 nudging config 7 1 Outcome.success later
      (all_at (recorded processed)) (recorded processed) sent-Kept.0

abbrev first_row : List (StateRow Fixed) → StateRow Fixed
first_row (r ∷ rs) = r
first_row [] = record {
  record_id = 7;
  current_state = RecordState.new;
  attempt_count = 0;
  root_cause_bucket = none;
  pending_action = none;
  due_at = none;
  ev_score_at_decision = none;
  p_recovery_at_decision = none;
  last_action_at = 0;
}

abbrev waiting : StateRow Fixed
waiting = first_row (stored handled).states

waiting_there :
    (find_state waiting.record_id (stored handled).states ≡ some waiting)
    × (find_record waiting.record_id (stored handled).records ≡ some record_row)
    × (waiting.current_state ≡ RecordState.nudge_scheduled)
unfolding classify_with_retry record_state_exists decide schedule_decision handle_classified
    handle_message execute_with_retry process_answer process null_if_unspecified
    encode_decision_trace score_columns new_audit schedule_new record_outcome claimable due_rows
    claim_row claimed_record claim_rows claim_due load_attempt_history load_downtime_status
    decide_for_action decide_after_execute claimed_state scoring_path direct_path score_actions
    refused routed priced score_and_route scale_duration base_retry_due_at retry_due_at due_at_for
    next_due reason allows recovery_window_closed retry_budget_spent contact_blocked
    apply_guardrails permitted_actions attempt_number_for downtime_blocks_retry
    apply_downtime_guardrail attempt_value lift_bps cost_of score score_all keep_better best_of
    find_record find_state update_state audit_of fixed saturate64 wrap64 ◌+ℤ◌ contact_hour_window
waiting_there = (refl, refl, refl)

claimed_nudge-accepts_last_report_example : AppliedAs RecordState.recovered (
    resume_nudge 0 nudging config waiting.record_id waiting.attempt_count Outcome.success later
      (all_at (claim_row later waiting record_row (stored handled)))
      (claim_row later waiting record_row (stored handled)))
claimed_nudge-accepts_last_report_example =
    claimed_nudge-accepts_last_report Fixed 0 nudging config later later (stored handled) waiting
      record_row waiting_there.0 waiting_there.1 waiting_there.2

abbrev reported_db : Resumed Fixed → Db Fixed
reported_db (Resumed.applied state db e) = db
reported_db _ = ingested

-- A report whose clock was read before the nudge was claimed, and its database after: its row sorts
-- before the rows of the claim, and the verifier calls the trail incomplete.
abbrev early_report : Resumed Fixed
early_report =
    resume_nudge 0 nudging config 7 1 Outcome.success (start_time + 1) (all_at (recorded processed))
      (recorded processed)

early_report-incomplete : (verify_batch none (reported_db early_report)).incomplete_audit_trails ≡ 1
unfolding classify_with_retry record_state_exists decide schedule_decision handle_classified
    handle_message execute_with_retry process_answer process null_if_unspecified
    encode_decision_trace score_columns new_audit schedule_new record_outcome claimable due_rows
    claim_row claimed_record claim_rows claim_due load_attempt_history load_downtime_status
    decide_for_action decide_after_execute claimed_state scoring_path direct_path score_actions
    refused routed priced score_and_route scale_duration base_retry_due_at retry_due_at due_at_for
    next_due reason allows recovery_window_closed retry_budget_spent contact_blocked
    apply_guardrails permitted_actions attempt_number_for downtime_blocks_retry
    apply_downtime_guardrail attempt_value lift_bps cost_of score score_all keep_better best_of
    find_record find_state update_state audit_of fixed saturate64 wrap64 ◌+ℤ◌ contact_hour_window
    resume_nudge resume_outcome apply_report load_nudged apply_resumed_outcome verify_batch
    scan_records verify_one verify_invariants rescore_audit
early_report-incomplete = refl
