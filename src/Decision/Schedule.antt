-- ===== src/Decision/Schedule.antt =====
-- services/decision-engine/internal/engine/schedule.go, and `dueAtFor` of state.go: when a
-- scheduled action becomes due. The local zone of the clock is a fixed offset east of UTC.
pub mod Windows
pub mod Retries
use momotaro.Prelude.{
  ℕ, ◌+◌, ◌*◌, ◌/◌, ◌%◌, Bool, true, false, ◌&&◌, Option, none, some, ltb, leb, if◌then◌else◌,
}
use momotaro.Prelude.Int.{ℤ, pos}
use momotaro.Platform.Float.{Float}
use momotaro.Platform.Time.{
  Time, Duration, nanos_per_second, nanos_per_hour, nanos_per_day, add, since, before,
}
use momotaro.Platform.Calendar.{day_of_month, first_of_next_month}
use momotaro.Proto.{RootCauseBucket, RecordType, RecordState, is_state}

-- `istZone`, as nanoseconds east of UTC.
abbrev pub ist_zone : ℕ
ist_zone = (5 * 3600 + 30 * 60) * nanos_per_second

abbrev pub contact_window_open_hour : ℕ
contact_window_open_hour = 10

abbrev pub contact_window_close_hour : ℕ
contact_window_close_hour = 21

-- `t.In(istZone).Hour()`.
abbrev pub ist_hour : Time → ℕ
ist_hour t = (t + ist_zone) / nanos_per_hour % 24

-- The window's opening on the day of `ist`, or on the next: `time.Date` and `AddDate` in a zone
-- with no daylight saving, on times that count from year 1 in that zone.
abbrev next_open : ℕ → ℕ → Time
next_open ist hour =
    let today = ist / nanos_per_day * nanos_per_day + contact_window_open_hour * nanos_per_hour in
    if leb contact_window_close_hour hour then today + nanos_per_day else today

module _ {F : Type 0} ⦃fl : Float F⦄ where
  unfoldable pub scale_duration : Duration → F → Duration
  scale_duration d time_scale =
      if fl.eq time_scale (fl.of_int (pos 1)) then d else fl.trunc (fl.div (fl.of_int d) time_scale)

  unfoldable pub mandate_lead_time_floor : Time → Time → Duration → F → Time
  mandate_lead_time_floor due now lead_time time_scale =
      let floor = add now (scale_duration lead_time time_scale) in
      if before due floor then floor else due

  unfoldable pub contact_hour_window : Time → F → Time
  contact_hour_window due time_scale =
      let ist = due + ist_zone in
      let hour = ist_hour due in
      if leb contact_window_open_hour hour && ltb hour contact_window_close_hour
      then due
      else add due (scale_duration (since (next_open ist hour) ist) time_scale)

  unfoldable pub salary_window_due_at : ℕ → Time → F → Time
  salary_window_due_at zone now time_scale =
      let day = day_of_month zone now in
      if leb 1 day && leb day 7
      then add now (scale_duration (pos 0) time_scale)
      else let wait = since (first_of_next_month zone now) now in
        add now (scale_duration wait time_scale)

  unfoldable pub base_retry_due_at : ℕ → RootCauseBucket → Time → Duration → F → Option Time
  base_retry_due_at zone RootCauseBucket.insufficient_funds now retry_delay time_scale =
      some (salary_window_due_at zone now time_scale)
  base_retry_due_at zone RootCauseBucket.transient_bank now retry_delay time_scale =
      some (add now (scale_duration retry_delay time_scale))
  base_retry_due_at zone RootCauseBucket.hard_decline now retry_delay time_scale = none
  base_retry_due_at zone RootCauseBucket.risk_hold now retry_delay time_scale = none
  base_retry_due_at zone _ now retry_delay time_scale =
      some (add now (scale_duration retry_delay time_scale))

  abbrev pub floored : RecordType → Time → Time → Duration → F → Time
  floored RecordType.mandate due now lead_time time_scale =
      mandate_lead_time_floor due now lead_time time_scale
  floored _ due now lead_time time_scale = due

  unfoldable pub retry_due_at :
      ℕ → RootCauseBucket → RecordType → Time → Duration → Duration → F → Option Time
  retry_due_at zone bucket type now retry_delay lead_time time_scale =
      elim (base_retry_due_at zone bucket now retry_delay time_scale) [
        | none ↦ none
        | some due ↦ some (floored type due now lead_time time_scale)
      ]

  -- `dueAtFor` of state.go.
  unfoldable pub due_at_for : RecordState → Duration → Time → F → Option Time
  due_at_for RecordState.nudge_scheduled nudge_delay now time_scale =
      some (contact_hour_window (add now nudge_delay) time_scale)
  due_at_for _ nudge_delay now time_scale = none

  -- The due time that HandleMessage, handleFailedAttempt and ResumeNudge give a decided state.
  unfoldable pub next_due :
      ℕ
      → RootCauseBucket
      → RecordType
      → RecordState
      → Time
      → Duration
      → Duration
      → Duration
      → F
      → Option Time
  next_due zone bucket type final now retry_delay lead_time nudge_delay time_scale =
      if is_state final RecordState.retry_scheduled
      then retry_due_at zone bucket type now retry_delay lead_time time_scale
      else due_at_for final nudge_delay now time_scale
