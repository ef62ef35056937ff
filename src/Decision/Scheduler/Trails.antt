-- ===== src/Decision/Scheduler/Trails.antt =====
-- What a processed claim and a delayed report do to the trails (scheduler.go).
use momotaro.Prelude.{
  ℕ, ◌+◌, ◌≡◌, refl, inl, inr, true, false, Option, some, List, [], ◌∷◌, arith, Bool-cases,
  Option-cases, String,
}
use momotaro.Prelude.Int.{ℤ}
use momotaro.Platform.Float.{Float}
use momotaro.Platform.Time.{Time}
use momotaro.Proto.{ActionType, RecordState, Outcome}
use momotaro.Audit.{is_allowed_transition}
use momotaro.Audit.Trails.{IsAllowed}
use momotaro.Database.{Db, StateRow, find_state}
use momotaro.Decision.Economics.{Model, Score}
use momotaro.Decision.Engine.{EngineConfig, AuditEvent}
use momotaro.Decision.Engine.Trails.{IsPath, Result-cases}
use momotaro.Decision.Guardrails.{AttemptHistory, DowntimeStatus}
use momotaro.Decision.Routing.{
  StateStep, StepReason, DecisionTrace, rescoring_path, score_actions, full_verdict,
  decide_after_execute, is_nudge,
}
use momotaro.Decision.Routing.Outcomes.{score_and_route-Ends, Ends-IsAllowed}
use momotaro.Decision.Scheduler.{
  ExecuteResponse, is_failure, Processed, Resumed, recorded_or_failed, route_again,
  handle_failed_attempt, process_answer, process, execute_with_retry,
}
use momotaro.Decision.Store.Reads.{load_attempt_history, load_downtime_status}
use momotaro.Decision.Store.Trails.{Trails}
use momotaro.Decision.Store.Trails.Steps.{
  OnOk, OnApplied, record_rescore-Trails, record_outcome-Trails, apply_resumed_outcome-Trails,
}
use momotaro.Decision.Store.Writes.{
  Result, ok, err, ClaimedRecord, record_outcome, record_rescore, apply_resumed_outcome,
}

-- A claim leaves a record where its pending action wants it: a nudge in Nudged, all else in
-- Retrying.
abbrev pub Claimed : RecordState → ActionType → Type 0
Claimed RecordState.retrying a = is_nudge a ≡ false
Claimed RecordState.nudged a = is_nudge a ≡ true
Claimed _ a = false ≡ true

Claimed-rescoring :
    (s : RecordState) (a : ActionType) → Claimed s a → IsAllowed s RecordState.scoring
unfolding is_allowed_transition
Claimed-rescoring s a k = ground arith

Claimed-executed :
    (F : Type 0) (s : RecordState) (a : ActionType) (o : Outcome)
    → Claimed s a
    → IsAllowed s (decide_after_execute {F = F} a o).0
unfolding is_allowed_transition decide_after_execute
Claimed-executed F s a o k = ground arith

module _ {F : Type 0} where
  abbrev pub OnProcessed : (Db F → Type 0) → Processed F → Type 0
  OnProcessed P (Processed.recorded db e) = P db
  OnProcessed P _ = Unit

  abbrev pub OnResumed : (Db F → Type 0) → Resumed F → Type 0
  OnResumed P (Resumed.applied s db e) = P db
  OnResumed P _ = Unit

  recorded-Holds :
      (P : Db F → Type 0) (e : AuditEvent) (r : Result (Db F))
      → OnOk P r
      → OnProcessed P (recorded_or_failed e r)
  recorded-Holds P e (ok db) t = t
  recorded-Holds P e (err x) t = tt

  rescore_path-Trails :
      (c : ClaimedRecord F) (ss : List (StateStep F)) (pending : ActionType) (score : Score F)
      (t : DecisionTrace F) (due : Option Time) (n : ℕ) (cost : ℤ) (now : Time) (db : Db F)
      (r : StateRow F)
      → find_state c.record_id db.states ≡ some r
      → IsPath r.current_state ss
      → Trails db
      → OnOk Trails (record_rescore c ss pending score t due n cost now db)
  rescore_path-Trails c [] pending score t due n cost now db r found w kept =
      unfold record_rescore in tt
  rescore_path-Trails c (s ∷ ss) pending score t due n cost now db r found w kept =
      record_rescore-Trails c s ss pending score t due n cost now db r found w kept

  pub report_path-Trails :
      (c : ClaimedRecord F) (n : ℕ) (ss : List (StateStep F)) (pending : ActionType)
      (score : Score F) (t : DecisionTrace F) (due : Option Time) (cost : ℤ) (now : Time)
      (db : Db F)
      → IsPath RecordState.nudged ss
      → Trails db
      → OnApplied Trails (apply_resumed_outcome c n ss pending score t due cost now db)
  report_path-Trails c n [] pending score t due cost now db w kept =
      unfold apply_resumed_outcome in tt
  report_path-Trails c n (s ∷ ss) pending score t due cost now db w kept =
      apply_resumed_outcome-Trails c n s ss pending score t due cost now db w kept

  pub rescoring_path-IsPath :
      (from to : RecordState) (why : StepReason F)
      → IsAllowed from RecordState.scoring
      → IsAllowed RecordState.scoring to
      → IsPath from (rescoring_path from to why)
  unfolding rescoring_path
  rescoring_path-IsPath from to why a b = (refl, a, (refl, b, refl))

module _ (F : Type 0) ⦃fl : Float F⦄ where
  pub route_again-IsAllowed :
      (m : Model) (cfg : EngineConfig F) (c : ClaimedRecord F) (h : AttemptHistory)
      (d : DowntimeStatus) (now : Time)
      → IsAllowed RecordState.scoring (route_again m cfg c h d now).state
  route_again-IsAllowed m cfg c h d now =
      Ends-IsAllowed (score_actions (full_verdict cfg.guardrails h d now))
        (route_again m cfg c h d now)
        (score_and_route-Ends F m cfg.guardrails c.bucket h d c.amount_paise now)

  -- What the two writes of `process` establish, `process` establishes.
  unfoldable pub RescoreHolds :
      (Db F → Type 0) → Model → EngineConfig F → ClaimedRecord F → Time → Db F → Type 0
  RescoreHolds P m cfg c now db =
      (h : AttemptHistory) (d : DowntimeStatus) (due : Option Time) (n : ℕ) (cost : ℤ)
      → let to = route_again m cfg c h d now in
        OnOk P (
          record_rescore c (rescoring_path c.claimed to.state to.why) to.pending_action to.score
            to.trace due n cost now db)

  unfoldable pub OutcomeHolds : (Db F → Type 0) → ClaimedRecord F → Time → Db F → Type 0
  OutcomeHolds P c now db =
      (o : Outcome) (n : ℕ) (cost : ℤ) (message : String)
      → let to = decide_after_execute {F = F} c.pending_action o in
        OnOk P (record_outcome c to.0 to.1 n cost message now db)

  handle_failed_attempt-Holds :
      (P : Db F → Type 0) (zone : ℕ) (m : Model) (cfg : EngineConfig F) (c : ClaimedRecord F)
      (n : ℕ) (cost : ℤ) (now : Time) (db : Db F)
      → RescoreHolds P m cfg c now db
      → OnProcessed P (handle_failed_attempt zone m cfg c n cost now db)
  unfolding handle_failed_attempt RescoreHolds
  handle_failed_attempt-Holds P zone m cfg c n cost now db rescored =
      elim (Result-cases (load_attempt_history c.record_id db)) [
        | inl (x, failed) ↦ rw (failed, handle_failed_attempt) tt
        | inr (h, loaded) ↦
            rw (loaded, handle_failed_attempt)
              (recorded-Holds P _ _
                (rescored h (load_downtime_status c.instrument_ref db) _ n cost))
      ]

  process_answer-Holds :
      (P : Db F → Type 0) (zone : ℕ) (m : Model) (cfg : EngineConfig F) (c : ClaimedRecord F)
      (resp : ExecuteResponse) (message : String) (now : Time) (db : Db F)
      → RescoreHolds P m cfg c now db
      → OutcomeHolds P c now db
      → OnProcessed P (process_answer zone m cfg c resp message now db)
  unfolding process_answer OutcomeHolds
  process_answer-Holds P zone m cfg c resp message now db rescored recorded =
      elim (Bool-cases (is_failure resp.outcome)) [
        | inl failed ↦ rw failed (
            handle_failed_attempt-Holds P zone m cfg c (c.attempt_count + 1) resp.cost_paise now db
              rescored)
        | inr other ↦ rw other (
            recorded-Holds P _ _
              (recorded resp.outcome (c.attempt_count + 1) resp.cost_paise message))
      ]

  pub process-Holds :
      (P : Db F → Type 0) (zone : ℕ) (m : Model) (cfg : EngineConfig F)
      (compose : ClaimedRecord F → ℕ → Option String)
      (execute : ClaimedRecord F → ℕ → String → ℕ → Option ExecuteResponse) (c : ClaimedRecord F)
      (now : Time) (db : Db F)
      → RescoreHolds P m cfg c now db
      → OutcomeHolds P c now db
      → OnProcessed P (process zone m cfg compose execute c now db)
  unfolding process
  process-Holds P zone m cfg compose execute c now db rescored recorded =
      elim (Option-cases (execute_with_retry compose execute c (c.attempt_count + 1))) [
        | inl silent ↦ rw (silent, process) tt
        | inr ((resp, message), answered) ↦
            rw (answered, process)
              (process_answer-Holds P zone m cfg c resp message now db rescored recorded)
      ]

  -- Whatever the Executor answers, processing a claimed record keeps every record's audit rows, in the
  -- order of their writes, a walk of the state machine from New to its current state, while the record still has the state
  -- that the claim gave it and its pending action is one for that state.
  pub process-Trails :
      (zone : ℕ) (m : Model) (cfg : EngineConfig F) (compose : ClaimedRecord F → ℕ → Option String)
      (execute : ClaimedRecord F → ℕ → String → ℕ → Option ExecuteResponse) (c : ClaimedRecord F)
      (now : Time) (db : Db F) (r : StateRow F)
      → find_state c.record_id db.states ≡ some r
      → r.current_state ≡ c.claimed
      → Claimed c.claimed c.pending_action
      → Trails db
      → OnProcessed Trails (process zone m cfg compose execute c now db)
  unfolding RescoreHolds OutcomeHolds
  process-Trails zone m cfg compose execute c now db r found same k kept =
      process-Holds Trails zone m cfg compose execute c now db
        (λ h d due n cost.
          let to = route_again m cfg c h d now in
          rescore_path-Trails c (rescoring_path c.claimed to.state to.why) to.pending_action
            to.score to.trace due n cost now db r found
            (rw same (
              rescoring_path-IsPath c.claimed to.state to.why
                (Claimed-rescoring c.claimed c.pending_action k)
                (route_again-IsAllowed m cfg c h d now)))
            kept)
        (λ o n cost message.
          let to = decide_after_execute {F = F} c.pending_action o in
          record_outcome-Trails c to.0 to.1 n cost message now db r found same
            (Claimed-executed F c.claimed c.pending_action o k) kept)
