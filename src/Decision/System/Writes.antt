-- ===== src/Decision/System/Writes.antt =====
-- What each transaction leaves of the rows of record_state (store.go, scheduler.go, engine.go).
use momotaro.Prelude.{
  ℕ, ◌==◌, ◌||◌, not, ◌≡◌, refl, inl, inr, Option, none, some, List, [], ◌∷◌, arith, Bool-cases,
  Option-cases, String,
}
use momotaro.Prelude.Int.{ℤ, pos}
use momotaro.Platform.Float.{Float}
use momotaro.Platform.Time.{Time}
use momotaro.Proto.{Uuid, ActionType, RecordState, Outcome, is_state, is_escalate}
use momotaro.Database.{Db, StateRow, find_record, find_state}
use momotaro.Database.Rows.{find-append_old}
use momotaro.Database.Keys.{Elsewhere, update-Elsewhere}
use momotaro.Decision.Economics.{Model, Score, zero_score}
use momotaro.Decision.Engine.{
  EngineConfig, RawEvent, ClassifyResponse, decide, final_state, scheduled_of, handle_message,
}
use momotaro.Decision.Engine.Trails.{OnHandled, handle_message-Holds}
use momotaro.Decision.Guardrails.{AttemptHistory, DowntimeStatus}
use momotaro.Decision.Routing.{
  Routing, StateStep, DecisionTrace, empty_trace, rescoring_path, scoring_path, direct_path,
  decide_after_execute, is_nudge, score_actions, full_verdict, score_and_route,
}
use momotaro.Decision.Routing.Outcomes.{Ends, score_and_route-Ends}
use momotaro.Decision.Scheduler.{ExecuteResponse, route_again, process, ReportReads, resume_nudge}
use momotaro.Decision.Scheduler.Trails.{
  OnProcessed, OnResumed, RescoreHolds, OutcomeHolds, process-Holds,
}
use momotaro.Decision.Scheduler.Reports.{ReportHolds, resume_nudge-Holds}
use momotaro.Decision.Store.Trails.Steps.{OnOk, OnApplied}
use momotaro.Decision.Store.Writes.{
  Scheduled, ClaimedRecord, null_if_unspecified, schedule_new, record_rescore, record_outcome,
  apply_resumed_outcome,
}
use momotaro.Decision.System.Sane.{Fits, Sane, update-Sane, insert-Sane}

abbrev pub Moved : {F : Type 0} → Uuid → Db F → Db F → Type 0
Moved id db db' = Sane db'.states × Elsewhere id db.states db'.states

-- Every row that is there stays as it is.
abbrev pub Extended : {F : Type 0} → Db F → Db F → Type 0
Extended {F} db db' =
    Sane db'.states
    × ((k : Uuid) (r : StateRow F)
        → find_state k db.states ≡ some r
        → find_state k db'.states ≡ some r)

Ends-Fits :
    {F : Type 0}
    → (acts : List ActionType) (r : Routing F) → Ends acts r
    → Fits r.state (null_if_unspecified r.pending_action)
unfolding null_if_unspecified
Ends-Fits acts r (inl (ne, inl (e, p))) = rw (e, p) refl
Ends-Fits acts r (inl (ne, inr (inl (e, p)))) = rw e (ground arith)
Ends-Fits acts r (inl (ne, inr (inr (e, p)))) = rw e tt
Ends-Fits acts r (inr (ne, e, p)) = rw e tt

executed-Fits :
    (F : Type 0) (a : ActionType) (o : Outcome) (p : Option ActionType)
    → Fits (decide_after_execute {F = F} a o).0 p
unfolding decide_after_execute
executed-Fits F a Outcome.success p = tt
executed-Fits F a Outcome.pending p = elim (Bool-cases (is_nudge a)) [
  | inl nudge ↦ rw nudge tt
  | inr other ↦ rw other tt
]
executed-Fits F a _ p = tt

module _ {F : Type 0} where
  schedule_new-Extended :
      (e : Scheduled) (ss : List (StateStep F)) (pending : ActionType) (score : Score F)
      (t : DecisionTrace F) (due : Option Time) (now : Time) (db : Db F)
      → Fits (final_state ss) (null_if_unspecified pending)
      → Sane db.states
      → OnOk (Extended db) (schedule_new e ss pending score t due now db)
  unfolding schedule_new
  schedule_new-Extended e [] pending score t due now db fit sane = tt
  schedule_new-Extended e (s ∷ ss) pending score t due now db fit sane =
      elim (Option-cases (find_record e.record_id db.records)) [
        | inl missing ↦ rw (missing, schedule_new) tt
        | inr (r, found) ↦ elim (Option-cases (find_state e.record_id db.states)) [
          | inr (old, taken) ↦ rw (found, taken, schedule_new) tt
          | inl free ↦
              rw (found, free, schedule_new)
                (
                  insert-Sane db.states _ free fit sane,
                  λ k q at_k. find-append_old k db.states _ at_k,
                )
        ]
      ]

  record_rescore-Moved :
      (c : ClaimedRecord F) (ss : List (StateStep F)) (pending : ActionType) (score : Score F)
      (t : DecisionTrace F) (due : Option Time) (n : ℕ) (cost : ℤ) (now : Time) (db : Db F)
      (r : StateRow F)
      → find_state c.record_id db.states ≡ some r
      → Fits (final_state ss) (null_if_unspecified pending)
      → Sane db.states
      → OnOk (Moved c.record_id db) (record_rescore c ss pending score t due n cost now db)
  unfolding record_rescore
  record_rescore-Moved c [] pending score t due n cost now db r found fit sane = tt
  record_rescore-Moved c (s ∷ ss) pending score t due n cost now db r found fit sane = (
    update-Sane c.record_id _ db.states r (λ q. refl) found fit sane,
    update-Elsewhere c.record_id _ db.states (λ q. refl),
  )

  record_outcome-Moved :
      (c : ClaimedRecord F) (o : Outcome) (n : ℕ) (cost : ℤ) (message : String) (now : Time)
      (db : Db F) (r : StateRow F)
      → find_state c.record_id db.states ≡ some r
      → Sane db.states
      → let to = decide_after_execute {F = F} c.pending_action o in
        OnOk (Moved c.record_id db) (record_outcome c to.0 to.1 n cost message now db)
  unfolding record_outcome
  record_outcome-Moved c o n cost message now db r found sane = (
    update-Sane c.record_id _ db.states r (λ q. refl) found
        (executed-Fits F c.pending_action o r.pending_action) sane,
    update-Elsewhere c.record_id _ db.states (λ q. refl),
  )

  apply_resumed_outcome-Moved :
      (c : ClaimedRecord F) (n : ℕ) (ss : List (StateStep F)) (pending : ActionType)
      (score : Score F) (t : DecisionTrace F) (due : Option Time) (cost : ℤ) (now : Time)
      (db : Db F)
      → Fits (final_state ss) (null_if_unspecified pending)
      → Sane db.states
      → OnApplied
          (Moved c.record_id db)
          (apply_resumed_outcome c n ss pending score t due cost now db)
  unfolding apply_resumed_outcome
  apply_resumed_outcome-Moved c n [] pending score t due cost now db fit sane = tt
  apply_resumed_outcome-Moved c n (s ∷ ss) pending score t due cost now db fit sane =
      elim (Option-cases (find_state c.record_id db.states)) [
        | inl missing ↦ rw (missing, apply_resumed_outcome) tt
        | inr (r, found) ↦
            elim (Bool-cases
              (not (is_state r.current_state RecordState.nudged) || not (r.attempt_count == n))) [
                | inl stale ↦ rw (found, stale, apply_resumed_outcome) (sane, λ k other. refl)
                | inr live ↦
                    rw (found, live, apply_resumed_outcome)
                      (
                        update-Sane c.record_id _ db.states r (λ q. refl) found fit sane,
                        update-Elsewhere c.record_id _ db.states (λ q. refl),
                      )
              ]
      ]

module _ (F : Type 0) ⦃fl : Float F⦄ where
  route-Fits :
      (m : Model) (cfg : EngineConfig F) (c : ClaimedRecord F) (h : AttemptHistory)
      (d : DowntimeStatus) (now : Time)
      → let to = route_again m cfg c h d now in
        Fits
          (final_state (rescoring_path c.claimed to.state to.why))
          (null_if_unspecified to.pending_action)
  unfolding rescoring_path
  route-Fits m cfg c h d now =
      Ends-Fits (score_actions (full_verdict cfg.guardrails h d now)) (route_again m cfg c h d now)
        (score_and_route-Ends F m cfg.guardrails c.bucket h d c.amount_paise now)

  pub process-Moved :
      (zone : ℕ) (m : Model) (cfg : EngineConfig F) (compose : ClaimedRecord F → ℕ → Option String)
      (execute : ClaimedRecord F → ℕ → String → ℕ → Option ExecuteResponse) (c : ClaimedRecord F)
      (now : Time) (db : Db F) (r : StateRow F)
      → find_state c.record_id db.states ≡ some r
      → Sane db.states
      → OnProcessed (Moved c.record_id db) (process zone m cfg compose execute c now db)
  unfolding RescoreHolds OutcomeHolds
  process-Moved zone m cfg compose execute c now db r found sane =
      process-Holds F (Moved c.record_id db) zone m cfg compose execute c now db
        (λ h d due n cost.
          let to = route_again m cfg c h d now in
          record_rescore-Moved c (rescoring_path c.claimed to.state to.why) to.pending_action
            to.score to.trace due n cost now db r found (route-Fits m cfg c h d now) sane)
        (λ o n cost message. record_outcome-Moved c o n cost message now db r found sane)

  pub resume_nudge-Moved :
      (zone : ℕ) (m : Model) (cfg : EngineConfig F) (id : Uuid) (n : ℕ) (outcome : Outcome)
      (now : Time) (reads : ReportReads F) (db : Db F)
      → Sane db.states
      → OnResumed (Moved id db) (resume_nudge zone m cfg id n outcome now reads db)
  unfolding ReportHolds
  resume_nudge-Moved zone m cfg id n outcome now reads db sane =
      resume_nudge-Holds F (Moved id db) zone m cfg id n outcome now reads db (λ c own at_nudged.
        rw (← own) (
          apply_resumed_outcome-Moved c n _ ActionType.unspecified zero_score empty_trace none
              (pos 0) now db
              (executed-Fits F c.pending_action Outcome.success
                (null_if_unspecified ActionType.unspecified))
              sane,
          λ h d due.
              let to = route_again m cfg c h d now in
              apply_resumed_outcome-Moved c n (rescoring_path c.claimed to.state to.why)
                to.pending_action to.score to.trace due (pos 0) now db (route-Fits m cfg c h d now)
                sane,
        ))

  decide-Fits :
      (m : Model) (cfg : EngineConfig F) (resp : ClassifyResponse F) (h : AttemptHistory)
      (d : DowntimeStatus) (amount : ℤ) (now : Time)
      → let it = decide m cfg resp h d amount now in
        Fits (final_state it.steps) (null_if_unspecified it.pending_action)
  unfolding decide direct_path scoring_path
  decide-Fits m cfg resp h d amount now =
      elim (Bool-cases (fl.lt resp.confidence cfg.classify_confidence_threshold)) [
        | inl low ↦ rw low tt
        | inr sure ↦ elim (Bool-cases (is_escalate resp.recommended_action)) [
          | inl up ↦ rw (sure, up) tt
          | inr on ↦
              rw (sure, on)
                (Ends-Fits (score_actions (full_verdict cfg.guardrails h d now))
                  (score_and_route {F = F} m cfg.guardrails resp.bucket h d amount now)
                  (score_and_route-Ends F m cfg.guardrails resp.bucket h d amount now))
        ]
      ]

  pub handle_message-Extended :
      (zone : ℕ) (m : Model) (cfg : EngineConfig F)
      (classify : RawEvent → ℕ → Option (ClassifyResponse F)) (now : Time) (e : RawEvent)
      (db : Db F)
      → Sane db.states
      → OnHandled (Extended db) (handle_message zone m cfg classify now (some e) db)
  handle_message-Extended zone m cfg classify now e db sane =
      handle_message-Holds F (Extended db) zone m cfg classify now e db (λ resp h d due.
        let it = decide m cfg resp h d e.amount_paise now in
        schedule_new-Extended (scheduled_of e resp) it.steps it.pending_action it.score it.trace due
          now db (decide-Fits m cfg resp h d e.amount_paise now) sane)
