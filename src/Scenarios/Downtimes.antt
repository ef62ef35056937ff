-- ===== src/Scenarios/Downtimes.antt =====
-- An outage that the payment provider reports.
use momotaro.Prelude.{◌+◌, ◌<◌, ◌≤◌, ◌≡◌, ◌⊎◌, ◌↔◌, inr, refl, true, false, some, []}
use momotaro.Prelude.Int.{pos}
use momotaro.Platform.Time.{Time, nanos_per_hour}
use momotaro.Proto.{ActionType}
use momotaro.Decision.Guardrails.{GuardrailVerdict, allows, apply_downtime_guardrail, lasts_until}
use momotaro.Decision.Server.{DowntimeReport, event_of_report, report_downtime_event, unix_time}
use momotaro.Decision.Server.Downtime.{status_of, reported_downtime-holds}
use momotaro.Decision.Store.Reads.{load_downtime_status, record_downtime_event}
use momotaro.Scenarios.{ingested}

abbrev outage : DowntimeReport
outage = record {
  downtime_id = "down_1";
  method = "netbanking";
  status = "started";
  scheduled = false;
  severity = "high";
  instrument_key = "VIJB";
  begin_unix = pos 1_700_000_000;
  end_unix = pos 0;
  has_end = false;
}

abbrev reported_at : Time
reported_at = unix_time (pos 1_700_000_060)

abbrev unblocked : GuardrailVerdict
unblocked = record { blocked = []; retry_held_by_downtime = false }

reported :
    report_downtime_event outage reported_at ingested
    ≡ inr (record_downtime_event (event_of_report outage reported_at) ingested)
unfolding report_downtime_event
reported = refl

-- An hour after the report the retry waits.
reported_downtime-holds_example :
    let d =
      load_downtime_status
        (some "VIJB")
        (record_downtime_event (event_of_report outage reported_at) ingested) in
    (allows (apply_downtime_guardrail unblocked d (reported_at + nanos_per_hour)) ActionType.retry
      ≡ true)
    ↔ ((allows unblocked ActionType.retry ≡ true)
        × ((reported_at + nanos_per_hour < unix_time (pos 1_700_000_000))
            ⊎ (lasts_until (status_of outage) (status_of outage).end
                ≤ reported_at + nanos_per_hour)))
reported_downtime-holds_example =
    reported_downtime-holds outage reported_at (reported_at + nanos_per_hour) unblocked ingested
      (record_downtime_event (event_of_report outage reported_at) ingested) reported refl refl tt
      refl
