-- ===== src/Decision/Server.antt =====
-- services/decision-engine/internal/server/server.go: the two reports that reach the Decision Engine
-- after the request they belong to.
pub mod Downtime
use momotaro.Prelude.{
  ℕ, suc, ◌+◌, ◌-◌, ◌*◌, ◌||◌, not, Bool, true, false, Option, none, some, String, ◌⊎◌, inl, inr,
  if◌then◌else◌,
}
use momotaro.Prelude.Int.{ℤ, pos, negsuc, leb_ℤ}
use text.Mathlib.Text.{◌==◌ as str_eq}
use momotaro.Platform.Float.{Float}
use momotaro.Platform.Time.{Time, nanos_per_second, nanos_per_day}
use momotaro.Proto.{Uuid, RecordState, Outcome}
use momotaro.Database.{Db}
use momotaro.Decision.Economics.{Model}
use momotaro.Decision.Engine.{EngineConfig, AuditEvent}
use momotaro.Decision.Scheduler.{ReportReads, Resumed, resume_nudge}
use momotaro.Decision.Store.Reads.{DowntimeEvent, record_downtime_event}
use momotaro.Decision.Store.Writes.{StoreError}

-- The refusals with `InvalidArgument`, and an error of the store.
pub data ReportError : Type 0 where
  record_id_missing attempt_not_positive outcome_missing : ReportError
  downtime_id_missing method_missing begin_missing : ReportError
  status_unknown : String → ReportError
  store_failed : StoreError → ReportError

-- A delayed outcome; a record id that is empty is `none`.
pub record DelayedOutcome : Type 0 where
  pub record_id : Option Uuid
  pub attempt_number : ℤ
  pub outcome : Outcome

abbrev pub is_no_outcome : Outcome → Bool
is_no_outcome Outcome.unspecified = true
is_no_outcome _ = false

-- The response's two fields and the database behind it, with the event that `ResumeNudge` emits.
pub record Reported (F : Type 0) : Type 0 where
  pub applied : Bool
  pub resulting_state : RecordState
  pub db : Db F
  pub event : Option AuditEvent

abbrev pub report_answer : {F : Type 0} → Db F → Resumed F → ReportError ⊎ Reported F
report_answer db (Resumed.discarded state) =
    inr (record { applied = false; resulting_state = state; db = db; event = none })
report_answer db (Resumed.failed e) = inl (ReportError.store_failed e)
report_answer db (Resumed.applied state db' e) =
    inr (record { applied = true; resulting_state = state; db = db'; event = some e })

-- `int(req.GetAttemptNumber())` of a positive number.
abbrev pub attempt_of : ℤ → ℕ
attempt_of (pos n) = n
attempt_of (negsuc n) = 0

module _ {F : Type 0} ⦃fl : Float F⦄ where
  -- `ReportDelayedOutcome`.
  unfoldable pub report_delayed_outcome :
      ℕ
      → Model
      → EngineConfig F
      → DelayedOutcome
      → Time
      → ReportReads F
      → Db F
      → ReportError ⊎ Reported F
  report_delayed_outcome zone m cfg req now reads db = elim req.record_id [
    | none ↦ inl ReportError.record_id_missing
    | some id ↦
        if leb_ℤ req.attempt_number (pos 0)
        then inl ReportError.attempt_not_positive
        else if is_no_outcome req.outcome
        then inl ReportError.outcome_missing
        else report_answer db
            (resume_nudge zone m cfg id (attempt_of req.attempt_number) req.outcome now reads db)
  ]

pub record DowntimeReport : Type 0 where
  pub downtime_id : String
  pub method : String
  pub status : String
  pub scheduled : Bool
  pub severity : String
  pub instrument_key : String
  pub begin_unix : ℤ
  pub end_unix : ℤ
  pub has_end : Bool

-- `downtimeStatuses`.
abbrev pub is_downtime_status : String → Bool
is_downtime_status s = str_eq s "started" || str_eq s "updated" || str_eq s "resolved"

-- 1 January 1970, as nanoseconds since year 1.
abbrev pub unix_epoch : Time
unix_epoch = 719162 * nanos_per_day

-- `time.Unix(s, 0)`, for seconds that do not lead before year 1 or past an `int64` of seconds.
abbrev pub unix_time : ℤ → Time
unix_time (pos s) = unix_epoch + s * nanos_per_second
unix_time (negsuc s) = unix_epoch - suc s * nanos_per_second

abbrev pub event_of_report : DowntimeReport → Time → DowntimeEvent
event_of_report req now = record {
  downtime_id = req.downtime_id;
  method = req.method;
  status = req.status;
  scheduled = req.scheduled;
  severity = req.severity;
  instrument = req.instrument_key;
  begin = unix_time req.begin_unix;
  end = if req.has_end then some (unix_time req.end_unix) else none;
  now = now;
}

-- `ReportDowntimeEvent`; the Scheduler adds its clock's time.
unfoldable pub report_downtime_event :
    {F : Type 0} → DowntimeReport → Time → Db F → ReportError ⊎ Db F
report_downtime_event req now db =
    if str_eq req.downtime_id ""
    then inl ReportError.downtime_id_missing
    else if str_eq req.method ""
    then inl ReportError.method_missing
    else if not (is_downtime_status req.status)
    then inl (ReportError.status_unknown req.status)
    else if leb_ℤ req.begin_unix (pos 0)
    then inl ReportError.begin_missing
    else inr (record_downtime_event (event_of_report req now) db)
