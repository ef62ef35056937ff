-- ===== src/Scenarios/Decisions.antt =====
-- The theorems on single decisions at concrete inputs.
use momotaro.Prelude.{
  ◌+◌, ◌*◌, ◌%◌, ◌≤◌, ◌<◌, ◌≡◌, ◌≢◌, ◌↔◌, ◌⊎◌, refl, true, false, none, some, List, [], ◌∷◌, length,
  arith,
}
use momotaro.Prelude.Int.{pos, ◌+ℤ◌, saturate64, wrap64}
use momotaro.Platform.Time.{Time, nanos_per_hour, nanos_per_day, add}
use momotaro.Platform.Calendar.{day_of_month}
use momotaro.Proto.{ActionType, RootCauseBucket, RecordType, RecordState}
use momotaro.Audit.{RecordSnapshot, trail_complete, verify_invariants, max_examples}
use momotaro.Audit.Report.{faulty, verify_invariants-counts}
use momotaro.Audit.Trails.{Walk, trail_complete_iff}
use momotaro.Decision.Economics.{
  Score, best_of, attempt_value, lift_bps, cost_of, score, score_all, keep_better,
}
use momotaro.Decision.Economics.Choice.{Found, best_of-Found}
use momotaro.Decision.Guardrails.{
  DowntimeStatus, GuardrailVerdict, allows, apply_downtime_guardrail, apply_guardrails,
  permitted_actions, permitted_or_escalate, spending_actions, validate, reason,
  recovery_window_closed, retry_budget_spent, contact_blocked, attempt_number_for,
  downtime_blocks_retry,
}
use momotaro.Decision.Guardrails.Limits.{
  InWindow, WithinLimits, Representable, allows-apply_guardrails, closed_window_stops,
  fresh_record_permitted, Spends,
}
use momotaro.Decision.Guardrails.Outage.{IsActive, downtime_holds_only_retry}
use momotaro.Decision.Routing.{
  Routing, full_verdict, score_actions, score_and_route, decide_for_action, decide_after_execute,
  claimed_state, scoring_path, direct_path, refused, routed, priced,
}
use momotaro.Decision.Routing.Limits.{scheduled-WithinLimits}
use momotaro.Decision.Routing.Outcomes.{Ends, score_and_route-Ends}
use momotaro.Decision.Schedule.{
  base_retry_due_at, contact_hour_window, contact_window_close_hour, contact_window_open_hour,
  ist_hour, ist_zone, retry_due_at, salary_window_due_at, scale_duration, due_at_for, next_due,
}
use momotaro.Decision.Schedule.Retries.{retry_due_at-none_iff, retry_due_at-mandate}
use momotaro.Decision.Schedule.Windows.{contact_hour_window-inside, salary_window_due_at-in_window}
use momotaro.Scenarios.{Fixed, fixed, fixed_ordered, start_time, guardrails, model, history}
use momotaro.Decision.Engine.{
  handle_message, classify_with_retry, record_state_exists, decide, schedule_decision,
  handle_classified,
}
use momotaro.Decision.Scheduler.{process, execute_with_retry, process_answer}
use momotaro.Decision.Store.Claim.{
  claim_due, claimable, due_rows, claim_row, claimed_record, claim_rows,
}
use momotaro.Decision.Store.Writes.{
  null_if_unspecified, encode_decision_trace, score_columns, new_audit, schedule_new,
  record_outcome,
}
use momotaro.Decision.Economics.Member.{IsPositive}
use momotaro.Decision.Store.Reads.{no_downtime, load_attempt_history, load_downtime_status}
use momotaro.Database.{find_record, find_state, update_state, audit_of}

guardrails-valid : validate guardrails ≡ none
unfolding validate
guardrails-valid = refl

guardrails-Representable : Representable guardrails
guardrails-Representable = record { window_fits = omega arith; cooldown_fits = omega arith }

abbrev later : Time
later = start_time + nanos_per_hour

allows-apply_guardrails_example :
    (allows (apply_guardrails history guardrails later) ActionType.retry ≡ true)
    ↔ (InWindow history guardrails later × WithinLimits ActionType.retry history guardrails later)
allows-apply_guardrails_example =
    allows-apply_guardrails ActionType.retry history guardrails later tt guardrails-valid
      guardrails-Representable

abbrev too_late : Time
too_late = start_time + 240 * nanos_per_hour

closed_window_stops_example :
    let v = apply_guardrails history guardrails too_late in
    (permitted_actions v ≡ [])
    × ((permitted_or_escalate ActionType.retry v).0 ≡ ActionType.escalate)
    × ((permitted_or_escalate ActionType.retry v).1 ≢ none)
closed_window_stops_example =
    closed_window_stops ActionType.retry history guardrails too_late tt guardrails-valid
      guardrails-Representable (omega arith)

fresh_record_permitted_example :
    permitted_actions (
      apply_guardrails
        (record { retries = 0; contacts = 0; last_contact_at = none; record_created_at = later })
        guardrails
        later)
    ≡ spending_actions
fresh_record_permitted_example =
    fresh_record_permitted guardrails later guardrails-valid guardrails-Representable

abbrev outage : DowntimeStatus
outage = record {
  present = true;
  downtime_id = "down_1";
  method = "upi";
  instrument = "bank";
  severity = "high";
  scheduled = false;
  begin = start_time;
  end = none;
}

abbrev permitted : GuardrailVerdict
permitted = record { blocked = []; retry_held_by_downtime = false }

downtime_holds_only_retry_example :
    let w = apply_downtime_guardrail permitted outage later in
    ((a : ActionType) → a ≢ ActionType.retry → allows w a ≡ allows permitted a)
    × ((allows w ActionType.retry ≡ true)
        ↔ ((allows permitted ActionType.retry ≡ true) × ¬ IsActive outage later))
    × ((w.retry_held_by_downtime ≡ true)
        ↔ ((allows permitted ActionType.retry ≡ true) × IsActive outage later))
downtime_holds_only_retry_example = downtime_holds_only_retry permitted outage later refl

abbrev score_of : ActionType → Fixed → Score Fixed
score_of a ev = record {
  action = a;
  lift_bps = pos 1000;
  p_recovery = 1000;
  ev_paise = ev;
  cost_paise = pos 50;
}

abbrev scores : List (Score Fixed)
scores = score_of ActionType.retry 300 ∷ score_of ActionType.nudge_reminder 500 ∷ []

best_of-Found_example : Found fixed_ordered (best_of scores) scores
best_of-Found_example = best_of-Found fixed_ordered scores (unfold fixed in (refl, (refl, tt)))

score_and_route-Ends_example : Ends (score_actions (full_verdict guardrails history outage later)) (
    score_and_route {F = Fixed} model guardrails RootCauseBucket.transient_bank history outage
      (pos 500000)
      later)
score_and_route-Ends_example =
    score_and_route-Ends Fixed model guardrails RootCauseBucket.transient_bank history outage
      (pos 500000) later

abbrev evening : Time
evening = 738000 * nanos_per_day + 20 * nanos_per_hour

contact_hour_window-inside_example :
    let out = contact_hour_window {F = Fixed} evening 10000 in
    (contact_window_open_hour ≤ ist_hour out)
    × (ist_hour out < contact_window_close_hour)
    × (evening ≤ out)
    × ((out ≡ evening)
        ⊎ ((out ≤ evening + 13 * nanos_per_hour)
            × ((out + ist_zone) % nanos_per_day ≡ contact_window_open_hour * nanos_per_hour)
            × ((ist_hour evening < contact_window_open_hour)
                ⊎ (contact_window_close_hour ≤ ist_hour evening))))
contact_hour_window-inside_example =
    contact_hour_window-inside Fixed evening 10000 (unfold fixed in refl)

salary_window_due_at-in_window_example :
    let due = salary_window_due_at {F = Fixed} 0 start_time 10000 in
    ((day_of_month 0 start_time ≤ 7) × (due ≡ start_time))
    ⊎ ((7 < day_of_month 0 start_time)
        × (day_of_month 0 due ≡ 1)
        × (start_time < due)
        × (due ≤ start_time + 31 * nanos_per_day))
salary_window_due_at-in_window_example =
    salary_window_due_at-in_window Fixed 0 start_time 10000 (unfold fixed in refl)

retry_due_at-none_iff_example :
    (retry_due_at {F = Fixed} 0 RootCauseBucket.risk_hold RecordType.invoice later
        (pos nanos_per_hour)
        (pos 0)
        10000
      ≡ none)
    ↔ ((RootCauseBucket.risk_hold ≡ RootCauseBucket.hard_decline)
        ⊎ (RootCauseBucket.risk_hold ≡ RootCauseBucket.risk_hold))
retry_due_at-none_iff_example =
    retry_due_at-none_iff Fixed 0 RootCauseBucket.risk_hold RecordType.invoice later
      (pos nanos_per_hour) (pos 0) 10000

abbrev snapshot : RecordSnapshot
snapshot = record {
  record_id = 7;
  has_state = true;
  current_state = RecordState.escalated;
  entries = record { from = RecordState.new; to = RecordState.escalated } ∷ [];
}

trail_complete_iff_example : (trail_complete snapshot ≡ true) ↔ (
    (snapshot.has_state ≡ false)
    ⊎ ((start : RecordState) × (snapshot.entries ≢ [])
        × Walk start snapshot.entries snapshot.current_state))
trail_complete_iff_example = trail_complete_iff snapshot

verify_invariants-counts_example :
    let r = verify_invariants (snapshot ∷ []) in
    (r.records_checked ≡ length (snapshot ∷ []))
    × (r.incomplete_audit_trails + r.impossible_transitions ≡ faulty (snapshot ∷ []))
    × (length r.examples ≤ max_examples)
verify_invariants-counts_example = verify_invariants-counts (snapshot ∷ [])

retry_due_at-mandate_example :
    (due : Time) × (retry_due_at {F = Fixed} 0 RootCauseBucket.transient_bank RecordType.mandate
        start_time
        (pos nanos_per_hour)
        (pos nanos_per_day)
        10000
      ≡ some due)
    × (add start_time (scale_duration {F = Fixed} (pos nanos_per_day) 10000) ≤ due)
    × (later ≤ due)
    × ((due ≡ later)
        ⊎ (due ≡ add start_time (scale_duration {F = Fixed} (pos nanos_per_day) 10000)))
unfolding base_retry_due_at scale_duration fixed
retry_due_at-mandate_example =
    retry_due_at-mandate Fixed 0 RootCauseBucket.transient_bank start_time (pos nanos_per_hour)
      (pos nanos_per_day) 10000 {base = later} refl

abbrev routing : Routing Fixed
routing =
    score_and_route model guardrails RootCauseBucket.transient_bank history no_downtime (pos 500000)
      later

routes_nudge : routing.pending_action ≡ ActionType.nudge_method_update
unfolding classify_with_retry record_state_exists decide schedule_decision handle_classified
    handle_message execute_with_retry process_answer process null_if_unspecified
    encode_decision_trace score_columns new_audit schedule_new record_outcome claimable due_rows
    claim_row claimed_record claim_rows claim_due load_attempt_history load_downtime_status
    decide_for_action decide_after_execute claimed_state scoring_path direct_path score_actions
    refused routed priced score_and_route scale_duration base_retry_due_at retry_due_at due_at_for
    next_due reason allows recovery_window_closed retry_budget_spent contact_blocked
    apply_guardrails permitted_actions attempt_number_for downtime_blocks_retry
    apply_downtime_guardrail attempt_value lift_bps cost_of score score_all keep_better best_of
    find_record find_state update_state audit_of fixed saturate64 wrap64 ◌+ℤ◌
routes_nudge = refl

scheduled-WithinLimits_example :
    Spends routing.pending_action
    × InWindow history guardrails later
    × WithinLimits routing.pending_action history guardrails later
    × (routing.score.action ≡ routing.pending_action)
    × IsPositive routing.score
scheduled-WithinLimits_example =
    scheduled-WithinLimits Fixed model guardrails RootCauseBucket.transient_bank history no_downtime
      (pos 500000) later guardrails-valid guardrails-Representable (λ e. cc routes_nudge)
