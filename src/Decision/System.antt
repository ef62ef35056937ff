-- ===== src/Decision/System.antt =====
-- The Decision Engine as a whole (services/decision-engine/internal/engine): the transactions of the
-- consumer, of the scheduler and of the delayed reports in any order on one database. A claim and
-- the outcome of its execution are two transactions, so other steps can fall between them.
pub mod Sane
pub mod Writes
pub mod Due
pub mod Claims
pub mod Invariant
pub mod Audited
pub mod Races
use momotaro.Prelude.{
  ℕ, ◌+◌, ◌==◌, ◌≡◌, ◌≢◌, ◌⊎◌, Bool, true, false, Option, none, some, List, [], ◌∷◌, ◌++◌, String,
  All, if◌then◌else◌,
}
use momotaro.Platform.Float.{Float}
use momotaro.Platform.Time.{Time}
use momotaro.Proto.{Uuid, RecordState, Outcome}
use momotaro.Database.{Db, RecordRow, StateRow, AttemptRow, DowntimeRow}
use momotaro.Decision.Economics.{Model}
use momotaro.Decision.Engine.{
  EngineConfig, RawEvent, ClassifyResponse, AuditEvent, Handled, handle_message,
}
use momotaro.Decision.Scheduler.{
  ExecuteResponse, Processed, Resumed, process, ReportReads, resume_nudge,
}
use momotaro.Decision.Store.Claim.{claim_due}
use momotaro.Decision.Store.Reads.{DowntimeEvent, record_downtime_event}
use momotaro.Decision.Store.Writes.{Result, ok, ClaimedRecord}

-- The claims that were committed and whose outcome is not recorded yet.
pub record System (F : Type 0) : Type 0 where
  pub db : Db F
  pub in_flight : List (ClaimedRecord F)

-- No claim in flight is of the record with `n` attempts counted.
abbrev pub Unclaimed : {F : Type 0} → List (ClaimedRecord F) → Uuid → ℕ → Type 0
Unclaimed flights id n = All (λ c. (c.record_id ≢ id) ⊎ (c.attempt_count ≢ n)) flights

abbrev pub system : {F : Type 0} → Db F → List (ClaimedRecord F) → System F
system db flights = record { db = db; in_flight = flights }

-- The parameters of each step are free: another instance may run with another configuration.
pub data Step {F : Type 0} ⦃fl : Float F⦄ : System F → System F → Type 0 where
  message :
      (zone : ℕ) (m : Model) (cfg : EngineConfig F)
      (classify : RawEvent → ℕ → Option (ClassifyResponse F)) (now : Time) (e : RawEvent)
      {db db' : Db F} {flights : List (ClaimedRecord F)} {event : AuditEvent}
      → handle_message zone m cfg classify now (some e) db ≡ Handled.scheduled db' event
      → Step (system db flights) (system db' flights)
  picked :
      (locked : Uuid → Bool) (now : Time) (limit : ℕ) {db db' : Db F}
      {flights claimed : List (ClaimedRecord F)}
      → claim_due locked now limit db ≡ ok (claimed, db')
      → Step (system db flights) (system db' (claimed ++ flights))
  processed :
      (zone : ℕ) (m : Model) (cfg : EngineConfig F) (compose : ClaimedRecord F → ℕ → Option String)
      (execute : ClaimedRecord F → ℕ → String → ℕ → Option ExecuteResponse) (now : Time)
      (c : ClaimedRecord F) (before behind : List (ClaimedRecord F)) {db db' : Db F}
      {event : AuditEvent}
      → process zone m cfg compose execute c now db ≡ Processed.recorded db' event
      → Step (system db (before ++ (c ∷ behind))) (system db' (before ++ behind))
  -- A claim that is dead-lettered, or whose write fails, or whose instance dies.
  lost :
      (c : ClaimedRecord F) (before behind : List (ClaimedRecord F)) {db : Db F}
      → Step (system db (before ++ (c ∷ behind))) (system db (before ++ behind))
  reported :
      (zone : ℕ) (m : Model) (cfg : EngineConfig F) (id : Uuid) (n : ℕ) (outcome : Outcome)
      (now : Time) (reads : ReportReads F) {db db' : Db F} {flights : List (ClaimedRecord F)}
      {state : RecordState} {event : AuditEvent}
      → resume_nudge zone m cfg id n outcome now reads db ≡ Resumed.applied state db' event
      → Step (system db flights) (system db' flights)
  downtime :
      (e : DowntimeEvent) {db : Db F} {flights : List (ClaimedRecord F)}
      → Step (system db flights) (system (record_downtime_event e db) flights)
  -- Ingestion and the Executor write their own tables.
  elsewhere :
      (records : List RecordRow) (attempts : List (AttemptRow F)) {db : Db F}
      {flights : List (ClaimedRecord F)}
      → Step
          (system db flights)
          (system (record db { records = records; attempts = attempts }) flights)

abbrev pub Untouched : {F : Type 0} → Db F → Type 0
Untouched db = (db.states ≡ []) × (db.audit ≡ [])

-- The steps of one run, the last one outermost.
pub data Run {F : Type 0} ⦃fl : Float F⦄ : System F → System F → Type 0 where
  stop : {s : System F} → Run s s
  next : {s t u : System F} → Run s t → Step t u → Run s u

module _ {F : Type 0} ⦃fl : Float F⦄ where
  -- A report that is applied is not for the attempt of a claim in flight.
  abbrev pub IsTimely : {s t : System F} → Step s t → Type 0
  IsTimely (Step.reported zone m cfg id n outcome now reads {flights = flights} it) =
      Unclaimed flights id n
  IsTimely _ = Unit

  abbrev pub AllTimely : {s t : System F} → Run s t → Type 0
  AllTimely Run.stop = Unit
  AllTimely (Run.next run step) = AllTimely run × IsTimely step
