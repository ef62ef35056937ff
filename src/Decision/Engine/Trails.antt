-- ===== src/Decision/Engine/Trails.antt =====
-- What `HandleMessage` does to the trails (engine.go), and to a message that is delivered again.
use momotaro.Prelude.{
  ℕ, ◌≡◌, refl, ◌⊎◌, inl, inr, true, Option, none, some, List, [], ◌∷◌, arith, Bool-cases,
  Option-cases, ◌==◌,
}
use momotaro.Prelude.Int.{ℤ}
use momotaro.Platform.Float.{Float}
use momotaro.Platform.Time.{Time}
use momotaro.Proto.{ActionType, RecordState, is_escalate}
use momotaro.Audit.Trails.{Walk, IsAllowed}
use momotaro.Audit.{is_allowed_transition}
use momotaro.Database.{Db, find_record, find_state}
use momotaro.Database.Rows.{find-append}
use momotaro.Decision.Economics.{Model, Score}
use momotaro.Decision.Engine.{
  EngineConfig, RawEvent, AuditEvent, scheduled_of, scheduled_or_failed, ClassifyResponse, Decision,
  Handled, decide, final_state, schedule_decision, handle_classified, handle_message,
  classify_with_retry, record_state_exists, history_failed,
}
use momotaro.Decision.Guardrails.{AttemptHistory, DowntimeStatus}
use momotaro.Decision.Routing.{
  StateStep, StepReason, DecisionTrace, direct_path, scoring_path, score_actions, full_verdict,
  score_and_route,
}
use momotaro.Decision.Routing.Outcomes.{score_and_route-Ends, Ends-IsAllowed}
use momotaro.Decision.Store.Reads.{load_attempt_history, load_downtime_status}
use momotaro.Decision.Store.Trails.{Trails}
use momotaro.Decision.Store.Trails.Steps.{step_edges, OnOk, OnOk-weaken, schedule_new-Trails}
use momotaro.Decision.Store.Writes.{StoreError, Result, ok, err, Scheduled, schedule_new}

pub Result-cases :
    {A : Type 0} → (r : Result A) → ((e : StoreError) × (r ≡ err e)) ⊎ ((a : A) × (r ≡ ok a))
Result-cases (ok a) = inr (a, refl)
Result-cases (err e) = inl (e, refl)

module _ {F : Type 0} where
  -- The steps are a walk of the state machine that starts in `a`.
  abbrev pub IsPath : RecordState → List (StateStep F) → Type 0
  IsPath a ss = Walk a (step_edges ss) (final_state ss)

  abbrev pub OnHandled : (Db F → Type 0) → Handled F → Type 0
  OnHandled P (Handled.scheduled db e) = P db
  OnHandled P _ = Unit

  schedule_path-Trails :
      (e : Scheduled) (ss : List (StateStep F)) (pending : ActionType) (score : Score F)
      (t : DecisionTrace F) (due : Option Time) (now : Time) (db : Db F)
      → IsPath RecordState.new ss
      → Trails db
      → OnOk Trails (schedule_new e ss pending score t due now db)
  schedule_path-Trails e [] pending score t due now db w kept = unfold schedule_new in tt
  schedule_path-Trails e (s ∷ ss) pending score t due now db w kept =
      schedule_new-Trails e s ss pending score t due now db w kept

  direct_path-IsPath :
      (why : StepReason F) → IsPath RecordState.new (direct_path RecordState.escalated why)
  unfolding direct_path is_allowed_transition
  direct_path-IsPath why = (refl, refl, refl)

  scoring_path-IsPath :
      (to : RecordState) (why : StepReason F)
      → IsAllowed RecordState.scoring to
      → IsPath RecordState.new (scoring_path to why)
  unfolding scoring_path is_allowed_transition
  scoring_path-IsPath to why allowed = (refl, refl, (refl, allowed, refl))

module _ (F : Type 0) ⦃fl : Float F⦄ where
  decide-IsPath :
      (m : Model) (cfg : EngineConfig F) (resp : ClassifyResponse F) (h : AttemptHistory)
      (d : DowntimeStatus) (amount : ℤ) (now : Time)
      → IsPath RecordState.new (decide m cfg resp h d amount now).steps
  unfolding decide
  decide-IsPath m cfg resp h d amount now =
      elim (Bool-cases (fl.lt resp.confidence cfg.classify_confidence_threshold)) [
        | inl low ↦ rw low (direct_path-IsPath _)
        | inr sure ↦ elim (Bool-cases (is_escalate resp.recommended_action)) [
          | inl up ↦ rw (sure, up) (direct_path-IsPath _)
          | inr on ↦
              let r = score_and_route {F = F} m cfg.guardrails resp.bucket h d amount now in
              rw (sure, on)
                (scoring_path-IsPath r.state r.why (
                  Ends-IsAllowed (score_actions (full_verdict cfg.guardrails h d now)) r
                    (score_and_route-Ends F m cfg.guardrails resp.bucket h d amount now)))
        ]
      ]

  finish-Holds :
      (P : Db F → Type 0) (e : AuditEvent) (r : Result (Db F))
      → OnOk P r
      → OnHandled P (scheduled_or_failed e r)
  finish-Holds P e (ok db) t = t
  finish-Holds P e (err StoreError.no_transitions) t = tt
  finish-Holds P e (err StoreError.record_not_found) t = tt
  finish-Holds P e (err StoreError.duplicate_key) t = tt
  finish-Holds P e (err StoreError.null_pending_action) t = tt
  finish-Holds P e (err StoreError.no_rows) t = tt

  history_failed-Holds :
      (P : Db F → Type 0) (x : StoreError) → OnHandled {F = F} P (history_failed x)
  history_failed-Holds P StoreError.no_transitions = tt
  history_failed-Holds P StoreError.record_not_found = tt
  history_failed-Holds P StoreError.duplicate_key = tt
  history_failed-Holds P StoreError.null_pending_action = tt
  history_failed-Holds P StoreError.no_rows = tt

  -- What holds of the insert's result, for every decision on the message, holds of the handler's.
  pub handle_message-Holds :
      (P : Db F → Type 0) (zone : ℕ) (m : Model) (cfg : EngineConfig F)
      (classify : RawEvent → ℕ → Option (ClassifyResponse F)) (now : Time) (e : RawEvent)
      (db : Db F)
      → ((resp : ClassifyResponse F) (h : AttemptHistory) (down : DowntimeStatus)
            (due : Option Time)
          → let d : Decision F = decide m cfg resp h down e.amount_paise now in
            OnOk P (
              schedule_new
                (scheduled_of e resp)
                d.steps
                d.pending_action
                d.score
                d.trace
                due
                now
                db))
      → OnHandled P (handle_message zone m cfg classify now (some e) db)
  unfolding handle_message handle_classified schedule_decision
  handle_message-Holds P zone m cfg classify now e db inserted =
      elim (Bool-cases (record_state_exists e.record_id db)) [
        | inl known ↦ rw (known, handle_message) tt
        | inr fresh ↦ elim (Option-cases (classify_with_retry (classify e))) [
          | inl silent ↦ rw (fresh, silent, handle_message) tt
          | inr (resp, answered) ↦ elim (Result-cases (load_attempt_history e.record_id db)) [
            | inl (x, failed) ↦
                rw (fresh, answered, failed, handle_message, handle_classified)
                  (history_failed-Holds P x)
            | inr (h, loaded) ↦
                rw (fresh, answered, loaded, handle_message, handle_classified)
                  (finish-Holds P _ _
                    (inserted resp h (load_downtime_status e.instrument_ref db) _))
          ]
        ]
      ]

  -- Whatever the Classifier answers, a message that is handled keeps every record's audit rows, in the
  -- order of their writes, a walk of the state machine from New to the record's current state.
  pub handle_message-Trails :
      (zone : ℕ) (m : Model) (cfg : EngineConfig F)
      (classify : RawEvent → ℕ → Option (ClassifyResponse F)) (now : Time)
      (message : Option RawEvent) (db : Db F)
      → Trails db
      → OnHandled Trails (handle_message zone m cfg classify now message db)
  unfolding handle_message
  handle_message-Trails zone m cfg classify now none db kept = tt
  handle_message-Trails zone m cfg classify now (some e) db kept =
      handle_message-Holds Trails zone m cfg classify now e db (λ resp h down due.
        let d = decide m cfg resp h down e.amount_paise now in
        schedule_path-Trails (scheduled_of e resp) d.steps d.pending_action d.score d.trace due now
          db (decide-IsPath m cfg resp h down e.amount_paise now) kept)

  inserted-Exists :
      (e : Scheduled) (ss : List (StateStep F)) (pending : ActionType) (score : Score F)
      (t : DecisionTrace F) (due : Option Time) (now : Time) (db : Db F)
      → OnOk
          (λ db'. record_state_exists e.record_id db' ≡ true)
          (schedule_new e ss pending score t due now db)
  unfolding schedule_new record_state_exists
  inserted-Exists e [] pending score t due now db = tt
  inserted-Exists e (s ∷ ss) pending score t due now db =
      elim (Option-cases (find_record e.record_id db.records)) [
        | inl missing ↦ rw (missing, schedule_new) tt
        | inr (r, found) ↦ elim (Option-cases (find_state e.record_id db.states)) [
          | inr (old, taken) ↦ rw (found, taken, schedule_new) tt
          | inl free ↦
              let same : (e.record_id == e.record_id) ≡ true = ground arith in
              rw (found, free, schedule_new)
                (rw (find-append e.record_id db.states _ free, same, record_state_exists) refl)
        ]
      ]

  -- A message that led to a schedule is skipped when it is delivered again, whatever the
  -- configuration, the Classifier's answers and the time are by then.
  pub redelivered_message-skipped :
      (zone zone' : ℕ) (m m' : Model) (cfg cfg' : EngineConfig F)
      (classify classify' : RawEvent → ℕ → Option (ClassifyResponse F)) (now now' : Time)
      (e : RawEvent) (db : Db F)
      → OnHandled
          (λ db'. handle_message zone' m' cfg' classify' now' (some e) db' ≡ Handled.skipped)
          (handle_message zone m cfg classify now (some e) db)
  unfolding handle_message
  redelivered_message-skipped zone zone' m m' cfg cfg' classify classify' now now' e db =
      handle_message-Holds _ zone m cfg classify now e db (λ resp h down due.
        let d = decide m cfg resp h down e.amount_paise now in
        OnOk-weaken {F = F} (λ db'. record_state_exists e.record_id db' ≡ true)
          (λ db'. handle_message zone' m' cfg' classify' now' (some e) db' ≡ Handled.skipped)
          (λ db' known. rw known refl)
          (schedule_new (scheduled_of e resp) d.steps d.pending_action d.score d.trace due now db)
          (inserted-Exists (scheduled_of e resp) d.steps d.pending_action d.score d.trace due now
            db))
