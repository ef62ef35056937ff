-- ===== src/Scenarios/Runs.antt =====
-- One record through the Decision Engine: a message, the claim of its retry, and its success.
use momotaro.Prelude.{ℕ, ◌+◌, ◌≡◌, refl, false, Option, none, some, List, [], ◌∷◌, String}
use momotaro.Prelude.Int.{pos, ◌+ℤ◌, saturate64, wrap64}
use momotaro.Platform.Time.{Time, nanos_per_hour}
use momotaro.Proto.{RecordState, Outcome, ActionType, RootCauseBucket, RecordType}
use momotaro.Database.{Db}
use momotaro.Decision.Engine.{AuditEvent, ClassifyResponse, RawEvent, Handled, handle_message}
use momotaro.Decision.Scheduler.{ExecuteResponse, Processed, process}
use momotaro.Decision.Store.Claim.{claim_due}
use momotaro.Decision.Store.Writes.{Result, ok, err, ClaimedRecord}
use momotaro.Decision.System.{system, Step, Run}
use momotaro.Decision.Store.Trails.{Trails}
use momotaro.Decision.Engine.Trails.{OnHandled, handle_message-Trails, redelivered_message-skipped}
use momotaro.Decision.Scheduler.Trails.{OnProcessed, process-Trails}
use momotaro.Decision.System.Claims.{Kept}
use momotaro.Decision.System.Invariant.{run-Kept, start-Kept}
use momotaro.Audit.Store.{verify_batch}
use momotaro.Decision.System.Audited.{run-verified}
use momotaro.Decision.System.Audited.{AllInOrder}
use momotaro.Prelude.{◌==◌, inl, inr, Bool-cases, arith}
use momotaro.Scenarios.{Fixed, fixed, config, model, event, answer, ingested, start_time}
use momotaro.Decision.Engine.{
  classify_with_retry, record_state_exists, decide, schedule_decision, handle_classified,
  handle_message,
}
use momotaro.Decision.Scheduler.{execute_with_retry, process_answer, process}
use momotaro.Decision.Store.Writes.{
  null_if_unspecified, encode_decision_trace, score_columns, new_audit, schedule_new,
  record_outcome,
}
use momotaro.Decision.Store.Claim.{
  claimable, due_rows, claim_row, claimed_record, claim_rows, claim_due,
}
use momotaro.Decision.Store.Reads.{load_attempt_history, load_downtime_status}
use momotaro.Decision.Routing.{
  decide_for_action, decide_after_execute, claimed_state, scoring_path, direct_path, score_actions,
  refused, routed, priced, score_and_route,
}
use momotaro.Decision.Schedule.{
  scale_duration, base_retry_due_at, retry_due_at, due_at_for, next_due,
}
use momotaro.Decision.Guardrails.{
  reason, allows, recovery_window_closed, retry_budget_spent, contact_blocked, apply_guardrails,
  permitted_actions, attempt_number_for, downtime_blocks_retry, apply_downtime_guardrail,
}
use momotaro.Decision.Economics.{
  attempt_value, lift_bps, cost_of, score, score_all, keep_better, best_of,
}
use momotaro.Database.{find_record, find_state, update_state, audit_of}
use momotaro.Scenarios.{fixed}

-- The Classifier answers at once.
abbrev pub answering : RawEvent → ℕ → Option (ClassifyResponse Fixed)
answering e n = some answer

abbrev handled : Handled Fixed
handled = handle_message 0 model config answering start_time (some event) ingested

abbrev pub stored : Handled Fixed → Db Fixed
stored (Handled.scheduled db e) = db
stored _ = ingested

abbrev pub published : Handled Fixed → AuditEvent
published (Handled.scheduled db e) = e
published _ = record {
  record_id = 0;
  batch_id = 0;
  from_state = RecordState.unspecified;
  to_state = RecordState.unspecified;
  recovered_delta_paise = pos 0;
  timestamp = 0;
}

abbrev pub one_hour_later : Time
one_hour_later = start_time + nanos_per_hour

abbrev claimed : Result (List (ClaimedRecord Fixed) × Db Fixed)
claimed = claim_due (λ id. false) one_hour_later 20 (stored handled)

abbrev pub flights : Result (List (ClaimedRecord Fixed) × Db Fixed) → List (ClaimedRecord Fixed)
flights (ok (cs, db)) = cs
flights (err e) = []

abbrev pub claimed_db : Result (List (ClaimedRecord Fixed) × Db Fixed) → Db Fixed
claimed_db (ok (cs, db)) = db
claimed_db (err e) = ingested

-- The Executor's retry succeeds.
abbrev executor : ClaimedRecord Fixed → ℕ → String → ℕ → Option ExecuteResponse
executor c n message attempt = some (record { outcome = Outcome.success; cost_paise = pos 50 })

abbrev pub compose : ClaimedRecord Fixed → ℕ → Option String
compose c n = some "hello"

abbrev the_claim : ClaimedRecord Fixed
the_claim = record {
  record_id = 7;
  batch_id = 1;
  from_state = RecordState.retry_scheduled;
  claimed = RecordState.retrying;
  pending_action = ActionType.retry;
  attempt_count = 0;
  amount_paise = pos 500000;
  bucket = RootCauseBucket.transient_bank;
  type = RecordType.invoice;
  ev_score_at_decision = 1499500000;
  p_recovery_at_decision = 3000;
  instrument_ref = none;
}

abbrev processed : Processed Fixed
processed = process 0 model config compose executor the_claim one_hour_later (claimed_db claimed)

abbrev pub recorded : Processed Fixed → Db Fixed
recorded (Processed.recorded db e) = db
recorded _ = ingested

abbrev announced : Processed Fixed → AuditEvent
announced (Processed.recorded db e) = e
announced _ = published handled

handled_it : handled ≡ Handled.scheduled (stored handled) (published handled)
unfolding classify_with_retry record_state_exists decide schedule_decision handle_classified
    handle_message execute_with_retry process_answer process null_if_unspecified
    encode_decision_trace score_columns new_audit schedule_new record_outcome claimable due_rows
    claim_row claimed_record claim_rows claim_due load_attempt_history load_downtime_status
    decide_for_action decide_after_execute claimed_state scoring_path direct_path score_actions
    refused routed priced score_and_route scale_duration base_retry_due_at retry_due_at due_at_for
    next_due reason allows recovery_window_closed retry_budget_spent contact_blocked
    apply_guardrails permitted_actions attempt_number_for downtime_blocks_retry
    apply_downtime_guardrail attempt_value lift_bps cost_of score score_all keep_better best_of
    find_record find_state update_state audit_of fixed saturate64 wrap64 ◌+ℤ◌
handled_it = refl

claimed_it : claimed ≡ ok (the_claim ∷ [], claimed_db claimed)
unfolding classify_with_retry record_state_exists decide schedule_decision handle_classified
    handle_message execute_with_retry process_answer process null_if_unspecified
    encode_decision_trace score_columns new_audit schedule_new record_outcome claimable due_rows
    claim_row claimed_record claim_rows claim_due load_attempt_history load_downtime_status
    decide_for_action decide_after_execute claimed_state scoring_path direct_path score_actions
    refused routed priced score_and_route scale_duration base_retry_due_at retry_due_at due_at_for
    next_due reason allows recovery_window_closed retry_budget_spent contact_blocked
    apply_guardrails permitted_actions attempt_number_for downtime_blocks_retry
    apply_downtime_guardrail attempt_value lift_bps cost_of score score_all keep_better best_of
    find_record find_state update_state audit_of fixed saturate64 wrap64 ◌+ℤ◌
claimed_it = refl

processed_it : processed ≡ Processed.recorded (recorded processed) (announced processed)
unfolding classify_with_retry record_state_exists decide schedule_decision handle_classified
    handle_message execute_with_retry process_answer process null_if_unspecified
    encode_decision_trace score_columns new_audit schedule_new record_outcome claimable due_rows
    claim_row claimed_record claim_rows claim_due load_attempt_history load_downtime_status
    decide_for_action decide_after_execute claimed_state scoring_path direct_path score_actions
    refused routed priced score_and_route scale_duration base_retry_due_at retry_due_at due_at_for
    next_due reason allows recovery_window_closed retry_budget_spent contact_blocked
    apply_guardrails permitted_actions attempt_number_for downtime_blocks_retry
    apply_downtime_guardrail attempt_value lift_bps cost_of score score_all keep_better best_of
    find_record find_state update_state audit_of fixed saturate64 wrap64 ◌+ℤ◌
processed_it = refl

abbrev run : Run (system ingested []) (system (recorded processed) [])
run =
    Run.next
      (Run.next
        (Run.next Run.stop (Step.message 0 model config answering start_time event handled_it))
        (Step.picked (λ id. false) one_hour_later 20 claimed_it))
      (Step.processed 0 model config compose executor one_hour_later the_claim [] [] processed_it)

recorded-AllInOrder : AllInOrder (recorded processed)
unfolding classify_with_retry record_state_exists decide schedule_decision handle_classified
    handle_message execute_with_retry process_answer process null_if_unspecified
    encode_decision_trace score_columns new_audit schedule_new record_outcome claimable due_rows
    claim_row claimed_record claim_rows claim_due load_attempt_history load_downtime_status
    decide_for_action decide_after_execute claimed_state scoring_path direct_path score_actions
    refused routed priced score_and_route scale_duration base_retry_due_at retry_due_at due_at_for
    next_due reason allows recovery_window_closed retry_budget_spent contact_blocked
    apply_guardrails permitted_actions attempt_number_for downtime_blocks_retry
    apply_downtime_guardrail attempt_value lift_bps cost_of score score_all keep_better best_of
    find_record find_state update_state audit_of fixed saturate64 wrap64 ◌+ℤ◌
recorded-AllInOrder = λ id. elim (Bool-cases (7 == id)) [
  | inl e ↦ rw e (omega arith, (omega arith, (omega arith, (tt, tt))))
  | inr e ↦ rw e tt
]

run-verified_example :
    let r = verify_batch none (recorded processed) in
    (r.incomplete_audit_trails ≡ 0) × (r.impossible_transitions ≡ 0)
run-verified_example =
    run-verified Fixed ingested (system (recorded processed) []) run (refl, refl)
      (((tt, tt), tt), tt) recorded-AllInOrder none

ingested-Trails : Trails ingested
unfolding Trails find_state audit_of
ingested-Trails = λ id. refl

handle_message-Trails_example : OnHandled Trails handled
handle_message-Trails_example =
    handle_message-Trails Fixed 0 model config answering start_time (some event) ingested
      ingested-Trails

redelivered_message-skipped_example :
    OnHandled
      (λ db.
        handle_message 0 model config answering one_hour_later (some event) db ≡ Handled.skipped)
      handled
redelivered_message-skipped_example =
    redelivered_message-skipped Fixed 0 0 model model config config answering answering start_time
      one_hour_later event ingested

abbrev claiming : Run (system ingested []) (system (claimed_db claimed) (the_claim ∷ []))
claiming =
    Run.next (Run.next Run.stop (Step.message 0 model config answering start_time event handled_it))
      (Step.picked (λ id. false) one_hour_later 20 claimed_it)

claiming-Kept : Kept (claimed_db claimed) (the_claim ∷ [])
claiming-Kept =
    run-Kept Fixed (system ingested []) (system (claimed_db claimed) (the_claim ∷ [])) claiming
      ((tt, tt), tt) (start-Kept Fixed ingested (refl, refl))

process-Trails_example :
    OnProcessed Trails
      (process 0 model config compose executor the_claim one_hour_later (claimed_db claimed))
process-Trails_example =
    process-Trails Fixed 0 model config compose executor the_claim one_hour_later
      (claimed_db claimed) (claiming-Kept.2.0.0).0 (claiming-Kept.2.0.0).1 (claiming-Kept.2.0.0).2
      refl claiming-Kept.0
