-- ===== src/Decision/System/Races.antt =====
-- A delayed report that comes a second time, when its attempt has failed, the record was scheduled
-- for another nudge, and that nudge is claimed but not yet sent (scheduler.go, store.go).
use momotaro.Prelude.{ℕ, ◌≡◌, refl, true, false, none, some, arith}
use momotaro.Platform.Float.{Float}
use momotaro.Platform.Time.{Time}
use momotaro.Proto.{RecordState, Outcome}
use momotaro.Database.{Db, RecordRow, StateRow, find_record, find_state}
use momotaro.Database.Keys.{update-found}
use momotaro.Decision.Economics.{Model}
use momotaro.Decision.Engine.{EngineConfig}
use momotaro.Decision.Routing.{claimed_state, decide_after_execute}
use momotaro.Decision.Scheduler.{Resumed, all_at, resume_nudge, resume_outcome, apply_report}
use momotaro.Decision.Store.Claim.{claim_row, claimed_record, load_nudged}
use momotaro.Decision.Store.Writes.{apply_resumed_outcome}

abbrev pub AppliedAs : {F : Type 0} → RecordState → Resumed F → Type 0
AppliedAs state (Resumed.applied s db e) = s ≡ state
AppliedAs state _ = false ≡ true

module _ (F : Type 0) ⦃fl : Float F⦄ where
  -- The claim of a scheduled nudge leaves the count of attempts as it was, so a report of success
  -- for the last attempt is applied to the record although its next nudge is in flight.
  pub claimed_nudge-accepts_last_report :
      (zone : ℕ) (m : Model) (cfg : EngineConfig F) (now now' : Time) (db : Db F) (r : StateRow F)
      (rec : RecordRow)
      → find_state r.record_id db.states ≡ some r
      → find_record r.record_id db.records ≡ some rec
      → r.current_state ≡ RecordState.nudge_scheduled
      → AppliedAs RecordState.recovered (
          resume_nudge zone m cfg r.record_id r.attempt_count Outcome.success now'
            (all_at (claim_row now r rec db))
            (claim_row now r rec db))
  unfolding resume_nudge resume_outcome apply_report load_nudged claimed_record
      apply_resumed_outcome decide_after_execute claim_row claimed_state
  claimed_nudge-accepts_last_report zone m cfg now now' db r rec found is ready =
      let moved : find_state r.record_id (claim_row now r rec db).states
          ≡ some (record r {
            current_state = claimed_state r.current_state;
            due_at = none;
            last_action_at = now;
          }) =
        update-found r.record_id _ db.states r (λ q. refl) found in
      ground (arith, moved, is, ready)
