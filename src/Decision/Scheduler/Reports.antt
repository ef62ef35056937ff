-- ===== src/Decision/Scheduler/Reports.antt =====
-- Delayed reports (`ResumeNudge` of scheduler.go) and the trails.
use momotaro.Prelude.{
  ℕ, ◌≡◌, refl, inl, inr, Bool, true, false, not, ◌||◌, ◌==◌, Option, none, some, [], ◌∷◌, arith,
  Bool-cases, Option-cases,
}
use momotaro.Prelude.Int.{pos}
use momotaro.Platform.Float.{Float}
use momotaro.Platform.Time.{Time}
use momotaro.Proto.{Uuid, ActionType, RecordState, Outcome, is_state}
use momotaro.Audit.{is_allowed_transition}
use momotaro.Database.{Db, find_state}
use momotaro.Database.Rows.{find-key}
use momotaro.Decision.Economics.{Model, zero_score}
use momotaro.Decision.Engine.{EngineConfig, AuditEvent}
use momotaro.Decision.Engine.Trails.{IsPath, Result-cases}
use momotaro.Decision.Guardrails.{AttemptHistory, DowntimeStatus}
use momotaro.Decision.Routing.{empty_trace, rescoring_path, decide_after_execute}
use momotaro.Decision.Scheduler.{
  applied_or_discarded, route_again, apply_report, resume_outcome, resume_nudge, ReportReads,
}
use momotaro.Decision.Scheduler.Trails.{
  OnResumed, report_path-Trails, rescoring_path-IsPath, route_again-IsAllowed,
}
use momotaro.Decision.Store.Claim.{load_nudged, claimed_record}
use momotaro.Decision.Store.Reads.{load_attempt_history, load_downtime_status}
use momotaro.Decision.Store.Trails.{Trails}
use momotaro.Decision.Store.Trails.Steps.{OnApplied}
use momotaro.Decision.Store.Writes.{Result, ok, err, ClaimedRecord, apply_resumed_outcome}

module _ {F : Type 0} where
  reported-Holds :
      (P : Db F → Type 0) (state final : RecordState) (e : AuditEvent) (x : Result (Bool × Db F))
      → OnApplied P x
      → OnResumed P (applied_or_discarded state final e x)
  reported-Holds P state final e (err x) h = tt
  reported-Holds P state final e (ok (false, db)) h = tt
  reported-Holds P state final e (ok (true, db)) h = h

module _ (F : Type 0) ⦃fl : Float F⦄ where
  -- What the write of `ResumeNudge` establishes for each outcome, `ResumeNudge` establishes.
  unfoldable pub ReportHolds :
      (Db F → Type 0) → Model → EngineConfig F → ClaimedRecord F → ℕ → Time → Db F → Type 0
  ReportHolds P m cfg c n now db =
      let ended = decide_after_execute {F = F} c.pending_action Outcome.success in
      OnApplied P (
        apply_resumed_outcome c n
          (record { from = RecordState.nudged; to = ended.0; why = ended.1 } ∷ [])
          ActionType.unspecified zero_score empty_trace none (pos 0) now db)
      × ((h : AttemptHistory) (d : DowntimeStatus) (due : Option Time)
          → let to = route_again m cfg c h d now in
            OnApplied P (
              apply_resumed_outcome c n (rescoring_path c.claimed to.state to.why) to.pending_action
                to.score to.trace due (pos 0) now db))

  resume_outcome-Holds :
      (P : Db F → Type 0) (zone : ℕ) (m : Model) (cfg : EngineConfig F) (c : ClaimedRecord F)
      (state : RecordState) (n : ℕ) (outcome : Outcome) (now : Time) (reads : ReportReads F)
      (db : Db F)
      → ReportHolds P m cfg c n now db
      → OnResumed P (resume_outcome zone m cfg c state n outcome now reads db)
  unfolding resume_outcome apply_report ReportHolds
  resume_outcome-Holds P zone m cfg c state n Outcome.success now reads db reported =
      reported-Holds P state _ _ _ reported.0
  resume_outcome-Holds P zone m cfg c state n Outcome.failure now reads db reported =
      elim (Result-cases (load_attempt_history c.record_id reads.at_history)) [
        | inl (x, failed) ↦ rw (failed, resume_outcome) tt
        | inr (h, loaded) ↦
            rw (loaded, resume_outcome)
              (reported-Holds P state _ _ _
                (reported.1 h (load_downtime_status c.instrument_ref reads.at_downtime) _))
      ]
  resume_outcome-Holds P zone m cfg c state n _ now reads db reported = tt

  nudged-claimed :
      (id : Uuid) (db : Db F) (c : ClaimedRecord F) (state : RecordState)
      → load_nudged id db ≡ some (c, state)
      → (c.record_id ≡ id) × (c.claimed ≡ RecordState.nudged)
  unfolding load_nudged claimed_record
  nudged-claimed id db c state e = elim (Option-cases (find_state id db.states)) [
    | inl missing ↦ ground (arith, missing)
    | inr (r, found) ↦
        let key : r.record_id ≡ id = find-key id db.states found in ground (arith, found, key)
  ]

  pub resume_nudge-Holds :
      (P : Db F → Type 0) (zone : ℕ) (m : Model) (cfg : EngineConfig F) (id : Uuid) (n : ℕ)
      (outcome : Outcome) (now : Time) (reads : ReportReads F) (db : Db F)
      → ((c : ClaimedRecord F)
          → c.record_id ≡ id
          → c.claimed ≡ RecordState.nudged
          → ReportHolds P m cfg c n now db)
      → OnResumed P (resume_nudge zone m cfg id n outcome now reads db)
  unfolding resume_nudge
  resume_nudge-Holds P zone m cfg id n outcome now reads db reported =
      elim (Option-cases (load_nudged id reads.at_load)) [
        | inl missing ↦ rw (missing, resume_nudge) tt
        | inr ((c, state), loaded) ↦
            elim (Bool-cases
              (not (is_state state RecordState.nudged) || not (c.attempt_count == n))) [
                | inl stale ↦ rw (loaded, stale, resume_nudge) tt
                | inr live ↦
                    let (own, at_nudged) = nudged-claimed id reads.at_load c state loaded in
                    rw (loaded, live, resume_nudge)
                      (resume_outcome-Holds P zone m cfg c state n outcome now reads db
                        (reported c own at_nudged))
              ]
      ]

  success-IsPath :
      (a : ActionType)
      → IsPath RecordState.nudged (
          record {
            from = RecordState.nudged;
            to = (decide_after_execute {F = F} a Outcome.success).0;
            why = (decide_after_execute {F = F} a Outcome.success).1;
          }
          ∷ [])
  unfolding decide_after_execute is_allowed_transition
  success-IsPath a = (refl, refl, refl)

  -- A delayed report, however late, doubled or false, and whatever the database was at each of its
  -- reads, keeps every record's audit rows, in the order of their writes, a walk of the state machine
  -- from New to its current state.
  pub resume_nudge-Trails :
      (zone : ℕ) (m : Model) (cfg : EngineConfig F) (id : Uuid) (n : ℕ) (outcome : Outcome)
      (now : Time) (reads : ReportReads F) (db : Db F)
      → Trails db
      → OnResumed Trails (resume_nudge zone m cfg id n outcome now reads db)
  unfolding ReportHolds
  resume_nudge-Trails zone m cfg id n outcome now reads db kept =
      resume_nudge-Holds Trails zone m cfg id n outcome now reads db (λ c own at_nudged. (
        report_path-Trails c n _ ActionType.unspecified zero_score empty_trace none (pos 0) now db
            (success-IsPath c.pending_action) kept,
        λ h d due.
            let to = route_again m cfg c h d now in
            let path : IsPath RecordState.nudged (rescoring_path c.claimed to.state to.why) =
              rw at_nudged (
                rescoring_path-IsPath RecordState.nudged to.state to.why
                  (unfold is_allowed_transition in refl)
                  (route_again-IsAllowed F m cfg c h d now)) in
            report_path-Trails c n (rescoring_path c.claimed to.state to.why) to.pending_action
              to.score to.trace due (pos 0) now db path kept,
      ))
