-- ===== src/Decision/Server/Downtime.antt =====
-- What a downtime that ReportDowntimeEvent of services/decision-engine/internal/server/server.go has
-- accepted does to the retries on its instrument.
use text.Mathlib.Text.{◌==◌ as str_eq}
use text.Mathlib.TextPositions.{eq_refl}
use momotaro.Prelude.{
  ◌<◌, ◌≤◌, ◌≡◌, ◌⊎◌, ◌↔◌, ◌&&◌, inl, inr, refl, ap, sym, ◌∙◌, true, false, Option, none, some,
  List, [], ◌∷◌, String, arith, Bool-cases, All, if◌then◌else◌, leb, ltb,
}
use momotaro.Platform.Time.{Time}
use momotaro.Proto.{ActionType}
use momotaro.Database.{Db, DowntimeRow}
use momotaro.Decision.Guardrails.{
  GuardrailVerdict, DowntimeStatus, allows, apply_downtime_guardrail, lasts_until,
}
use momotaro.Decision.Guardrails.Outage.{IsActive, downtime_holds_only_retry}
use momotaro.Decision.Server.{DowntimeReport, event_of_report, report_downtime_event, unix_time}
use momotaro.Decision.Store.Reads.{
  DowntimeEvent, newer, latest_open, is_open, event_row, upsert_downtime, record_downtime_event,
  load_downtime_status,
}

-- The rows were written before time `t`.
abbrev pub Before : Time → List DowntimeRow → Type 0
Before t rows = All (λ (r : DowntimeRow). r.updated_at < t) rows

newer-Before :
    (t : Time) (r : DowntimeRow) (best : Option DowntimeRow)
    → r.updated_at < t
    → ((s : DowntimeRow) → best ≡ some s → s.updated_at < t)
    → (s : DowntimeRow) → newer r best ≡ some s
    → s.updated_at < t
newer-Before t r none h k s e = ground (arith, h, e)
newer-Before t r (some b) h k s e = ground (arith, h, k b refl, e)

latest_open-Before :
    (t : Time) (key : String) (rows : List DowntimeRow)
    → Before t rows
    → (s : DowntimeRow) → latest_open key rows ≡ some s
    → s.updated_at < t
unfolding latest_open
latest_open-Before t key [] h s e = cc
latest_open-Before t key (r ∷ rows) (h, hs) s e =
    elim (Bool-cases (str_eq r.instrument_key key && is_open r)) [
      | inl b ↦
          newer-Before t r (latest_open key rows) h (latest_open-Before t key rows hs) s
            (rw (b, latest_open) at e)
      | inr b ↦ latest_open-Before t key rows hs s (rw (b, latest_open) at e)
    ]

-- A row written at time `t` is newer than what was written before.
newest :
    (r : DowntimeRow) (best : Option DowntimeRow)
    → ((s : DowntimeRow) → best ≡ some s → s.updated_at < r.updated_at)
    → newer r best ≡ some r
newest r none h = refl
newest r (some s) h = ground (arith, h s refl)

older_loses : (r s : DowntimeRow) → r.updated_at < s.updated_at → newer r (some s) ≡ some s
older_loses r s h = ground (arith, h)

latest_open-upsert :
    (e : DowntimeEvent) (rows : List DowntimeRow)
    → Before e.now rows
    → str_eq e.status "resolved" ≡ false
    → latest_open e.instrument (upsert_downtime e rows) ≡ some (event_row e)
unfolding latest_open upsert_downtime event_row
latest_open-upsert e [] h p = rw (eq_refl e.instrument, p) refl
latest_open-upsert e (r ∷ rows) (h, hs) p = elim (Bool-cases (str_eq r.id e.downtime_id)) [
  | inl b ↦
      let n =
        newest (event_row e) (latest_open e.instrument rows)
          (latest_open-Before e.now e.instrument rows hs) in
      rw (b, eq_refl e.instrument, p) (rw p at n)
  | inr b ↦
      let rest = latest_open-upsert e rows hs p in
      rw b (elim (Bool-cases (str_eq r.instrument_key e.instrument && is_open r)) [
        | inl c ↦ rw (c, rest) (older_loses r (event_row e) h)
        | inr c ↦ rw (c, rest) refl
      ])
]

inactive_iff :
    (d : DowntimeStatus) (t : Time)
    → d.present ≡ true
    → (¬ IsActive d t) ↔ ((t < d.begin) ⊎ (lasts_until d d.end ≤ t))
inactive_iff d t p = (
  λ idle. elim (Bool-cases (leb d.begin t && ltb t (lasts_until d d.end))) [
    | inl b ↦
        absurd (idle (record { known = p; begun = ground (arith, b); lasting = ground (arith, b) }))
    | inr b ↦ ground (arith, b)
  ],
  λ out act. ground (arith, out, act.begun, act.lasting),
)

-- What the guardrails read of a downtime that is reported.
abbrev pub status_of : DowntimeReport → DowntimeStatus
status_of req = record {
  present = true;
  downtime_id = req.downtime_id;
  method = req.method;
  instrument = req.instrument_key;
  severity = req.severity;
  scheduled = req.scheduled;
  begin = unix_time req.begin_unix;
  end = if req.has_end then some (unix_time req.end_unix) else none;
}

module _ {F : Type 0} where
  accepted :
      (req : DowntimeReport) (now : Time) (db db' : Db F)
      → report_downtime_event req now db ≡ inr db'
      → record_downtime_event (event_of_report req now) db ≡ db'
  unfolding report_downtime_event
  accepted req now db db' h = ground (arith, h)

  reported_status :
      (req : DowntimeReport) (now : Time) (db : Db F)
      → str_eq req.status "resolved" ≡ false
      → str_eq req.instrument_key "" ≡ false
      → Before now db.downtimes
      → load_downtime_status
          (some req.instrument_key)
          (record_downtime_event (event_of_report req now) db)
        ≡ status_of req
  unfolding load_downtime_status record_downtime_event event_row
  reported_status req now db p i h =
      rw (i, latest_open-upsert (event_of_report req now) db.downtimes h p) refl

  -- A downtime that is reported as started or updated, with an instrument, after what was reported
  -- before it: a guardrail verdict on a record of that instrument, not yet marked as held by a
  -- downtime, keeps the retry that it allows exactly before the reported beginning and from the reported end on, scheduled or not; where the report has no end,
  -- from six hours after the beginning on, which is the code's safety valve for an outage whose
  -- resolution never arrives.
  pub reported_downtime-holds :
      (req : DowntimeReport) (now t : Time) (v : GuardrailVerdict) (db db' : Db F)
      → report_downtime_event req now db ≡ inr db'
      → str_eq req.status "resolved" ≡ false
      → str_eq req.instrument_key "" ≡ false
      → Before now db.downtimes
      → v.retry_held_by_downtime ≡ false
      → let d = load_downtime_status (some req.instrument_key) db' in
        (allows (apply_downtime_guardrail v d t) ActionType.retry ≡ true) ↔ (
          (allows v ActionType.retry ≡ true)
          × ((t < unix_time req.begin_unix)
              ⊎ (lasts_until (status_of req) (status_of req).end ≤ t)))
  reported_downtime-holds req now t v db db' h p i b n =
      let e : load_downtime_status (some req.instrument_key) db' ≡ status_of req =
        ap (load_downtime_status (some req.instrument_key)) (sym (accepted req now db db' h))
        ∙ reported_status req now db p i b in
      let (_, keeps, _) = downtime_holds_only_retry v (status_of req) t n in
      let out = inactive_iff (status_of req) t refl in
      rw e (λ a. let (k, idle) = keeps.0 a in (k, out.0 idle), λ (k, o). keeps.1 (k, out.1 o))
