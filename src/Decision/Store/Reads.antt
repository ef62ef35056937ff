-- ===== src/Decision/Store/Reads.antt =====
-- The reads of store.go that the guardrails judge by, and the downtime table.
use momotaro.Prelude.{
  ℕ, ◌+◌, ◌==◌, ◌&&◌, Bool, true, false, Option, none, some, List, [], ◌∷◌, String, leb,
  if◌then◌else◌,
}
use text.Mathlib.Text.{◌==◌ as str_eq}
use momotaro.Platform.Time.{Time}
use momotaro.Proto.{Uuid, ActionType, is_retry}
use momotaro.Database.{Db, AttemptRow, DowntimeRow, find_record}
use momotaro.Decision.Guardrails.{AttemptHistory, DowntimeStatus}
use momotaro.Decision.Routing.{is_nudge}
use momotaro.Decision.Store.Writes.{StoreError, Result, ok, err}

abbrev max_time : Option Time → Time → Option Time
max_time none t = some t
max_time (some s) t = some (if leb s t then t else s)

module _ {F : Type 0} where
  -- `COUNT(ia.id) FILTER (WHERE …)` over the attempts of one record.
  abbrev pub count_actions : (ActionType → Bool) → Uuid → List (AttemptRow F) → ℕ
  count_actions p id [] = 0
  count_actions p id (a ∷ as') =
      let rest = count_actions p id as' in
      if a.record_id == id && p a.action_type then rest + 1 else rest

  -- `MAX(ia.executed_at) FILTER (WHERE …)`.
  abbrev pub last_action : (ActionType → Bool) → Uuid → List (AttemptRow F) → Option Time
  last_action p id [] = none
  last_action p id (a ∷ as') =
      let rest = last_action p id as' in
      if a.record_id == id && p a.action_type then max_time rest a.executed_at else rest

  unfoldable pub load_attempt_history : Uuid → Db F → Result AttemptHistory
  load_attempt_history id db = elim (find_record id db.records) [
    | none ↦ err StoreError.record_not_found
    | some r ↦ ok (record {
      retries = count_actions is_retry id db.attempts;
      contacts = count_actions is_nudge id db.attempts;
      last_contact_at = last_action is_nudge id db.attempts;
      record_created_at = r.created_at;
    })
  ]

-- The zero value of `downtimeStatus`.
abbrev pub no_downtime : DowntimeStatus
no_downtime = record {
  present = false;
  downtime_id = "";
  method = "";
  instrument = "";
  severity = "";
  scheduled = false;
  begin = 0;
  end = none;
}

abbrev pub is_open : DowntimeRow → Bool
is_open r = elim r.resolved_at [ none ↦ true | some _ ↦ false ]

abbrev pub newer : DowntimeRow → Option DowntimeRow → Option DowntimeRow
newer r none = some r
newer r (some s) = if leb s.updated_at r.updated_at then some r else some s

-- The latest row of the instrument that is not resolved.
unfoldable pub latest_open : String → List DowntimeRow → Option DowntimeRow
latest_open key [] = none
latest_open key (r ∷ rs) =
    let rest = latest_open key rs in
    if str_eq r.instrument_key key && is_open r then newer r rest else rest

-- No instrument, and an empty one, have no downtime.
unfoldable pub load_downtime_status : {F : Type 0} → Option String → Db F → DowntimeStatus
unfolding latest_open
load_downtime_status none db = no_downtime
load_downtime_status (some key) db =
    if str_eq key "" then no_downtime else elim (latest_open key db.downtimes) [
      | none ↦ no_downtime
      | some r ↦ record {
        present = true;
        downtime_id = r.id;
        method = r.method;
        instrument = key;
        severity = r.severity;
        scheduled = r.scheduled;
        begin = r.begin_at;
        end = r.end_at;
      }
    ]

pub record DowntimeEvent : Type 0 where
  pub downtime_id : String
  pub method : String
  pub status : String
  pub scheduled : Bool
  pub severity : String
  pub instrument : String
  pub begin : Time
  pub end : Option Time
  pub now : Time

unfoldable pub event_row : DowntimeEvent → DowntimeRow
event_row e = record {
  id = e.downtime_id;
  method = e.method;
  instrument_key = e.instrument;
  severity = e.severity;
  scheduled = e.scheduled;
  begin_at = e.begin;
  end_at = e.end;
  resolved_at = if str_eq e.status "resolved" then some e.now else none;
  updated_at = e.now;
}

-- `INSERT … ON CONFLICT (id) DO UPDATE`.
unfoldable pub upsert_downtime : DowntimeEvent → List DowntimeRow → List DowntimeRow
unfolding event_row
upsert_downtime e [] = event_row e ∷ []
upsert_downtime e (r ∷ rs) =
    if str_eq r.id e.downtime_id then event_row e ∷ rs else r ∷ upsert_downtime e rs

unfoldable pub record_downtime_event : {F : Type 0} → DowntimeEvent → Db F → Db F
unfolding upsert_downtime
record_downtime_event e db = record db { downtimes = upsert_downtime e db.downtimes }
