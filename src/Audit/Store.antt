-- ===== src/Audit/Store.antt =====
-- services/audit/internal/server: the reads of store.go and the two calls of server.go that judge
-- audit trails. A read that fails is not modelled.
use momotaro.Prelude.{
  ℕ, ◌/◌, ◌==◌, Bool, true, false, Option, none, some, List, [], ◌∷◌, leb, if◌then◌else◌,
}
use momotaro.Proto.{Uuid, RecordState}
use momotaro.Audit.{
  Transition, RecordSnapshot, VerifyResponse, snapshot_for, trail_complete, verify_invariants,
}
use momotaro.Database.{Db, RecordRow, StateRow, AuditRow, find_record, find_state, audit_of}

abbrev pub in_scope : Option Uuid → RecordRow → Bool
in_scope none r = true
in_scope (some batch) r = r.batch_id == batch

module _ {F : Type 0} where
  abbrev pub edge : AuditRow F → Transition
  edge r = record { from = r.from_state; to = r.to_state }

  abbrev pub edges : List (AuditRow F) → List Transition
  edges [] = []
  edges (r ∷ rs) = edge r ∷ edges rs

  -- The column `ts` holds microseconds.
  abbrev pub stored_at : AuditRow F → ℕ
  stored_at r = r.ts / 1000

  -- `ORDER BY ts, id`. The ids of a record's rows rise with their writes, since each transaction
  -- holds the lock on its state, so rows of one time keep the order of the table.
  abbrev pub insert_by_time : AuditRow F → List (AuditRow F) → List (AuditRow F)
  insert_by_time r [] = r ∷ []
  insert_by_time r (s ∷ ss) =
      let rest = insert_by_time r ss in
      if leb (stored_at r) (stored_at s) then r ∷ s ∷ ss else s ∷ rest

  abbrev pub by_time : List (AuditRow F) → List (AuditRow F)
  by_time [] = []
  by_time (r ∷ rs) = insert_by_time r (by_time rs)

  abbrev pub load_audit_entries : Uuid → Db F → List Transition
  load_audit_entries id db = edges (by_time (audit_of id db.audit))

  unfoldable pub load_current_state : Uuid → Db F → RecordState
  load_current_state id db = elim (find_state id db.states) [
    | none ↦ RecordState.unspecified
    | some r ↦ r.current_state
  ]

  -- The `trail_complete` of GetRecordAudit; `none` is "not found".
  unfoldable pub get_record_audit : Uuid → Db F → Option Bool
  get_record_audit id db = elim (find_record id db.records) [
    | none ↦ none
    | some r ↦
        some
          (trail_complete (snapshot_for id (load_current_state id db) (load_audit_entries id db)))
  ]

  abbrev pub row_snapshot : Uuid → Option (StateRow F) → List Transition → RecordSnapshot
  row_snapshot id none entries = record {
    record_id = id;
    has_state = false;
    current_state = RecordState.unspecified;
    entries = entries;
  }
  row_snapshot id (some r) entries = record {
    record_id = id;
    has_state = true;
    current_state = r.current_state;
    entries = entries;
  }

  -- The records of the batch, or all of them, each with its entries.
  unfoldable pub scan_rows : Option Uuid → Db F → List RecordRow → List RecordSnapshot
  scan_rows batch db [] = []
  scan_rows batch db (r ∷ rs) =
      let rest = scan_rows batch db rs in
      if in_scope batch r
      then row_snapshot r.id (find_state r.id db.states) (load_audit_entries r.id db) ∷ rest
      else rest

  unfoldable pub scan_records : Option Uuid → Db F → List RecordSnapshot
  unfolding scan_rows
  scan_records batch db = scan_rows batch db db.records

  -- VerifyInvariants, for a batch id that is a UUID or absent.
  unfoldable pub verify_batch : Option Uuid → Db F → VerifyResponse
  verify_batch batch db = verify_invariants (scan_records batch db)
