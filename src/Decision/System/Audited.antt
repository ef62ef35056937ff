-- ===== src/Decision/System/Audited.antt =====
-- What the Audit service finds (services/audit/internal/server) in any database that the Decision
-- Engine can leave behind.
use momotaro.Prelude.{
  ◌≡◌, refl, ap, ◌∙◌, ◌≤◌, inl, inr, true, Option, List, [], ◌∷◌, arith, Option-cases,
}
use momotaro.Platform.Float.{Float}
use momotaro.Proto.{Uuid, RecordState}
use momotaro.Audit.{trail_complete}
use momotaro.Audit.Report.{faulty, verify_invariants-counts}
use momotaro.Audit.Store.{
  stored_at, insert_by_time, by_time, load_audit_entries, row_snapshot, scan_rows, scan_records,
  verify_batch,
}
use momotaro.Audit.Trails.{trail_complete_iff}
use momotaro.Database.{Db, RecordRow, AuditRow, find_state, audit_of}
use momotaro.Decision.Store.Trails.{Trails}
use momotaro.Decision.System.{System, system, Untouched, Run, AllTimely}
use momotaro.Decision.System.Invariant.{run-Kept, start-Kept}

module _ {F : Type 0} where
  abbrev NotBefore : AuditRow F → List (AuditRow F) → Type 0
  NotBefore r [] = Unit
  NotBefore r (s ∷ ss) = stored_at r ≤ stored_at s

  -- The times of the rows do not fall.
  abbrev pub InOrder : List (AuditRow F) → Type 0
  InOrder [] = Unit
  InOrder (r ∷ rs) = NotBefore r rs × InOrder rs

  insert_by_time-first :
      (r : AuditRow F) (rs : List (AuditRow F)) → NotBefore r rs → insert_by_time r rs ≡ r ∷ rs
  insert_by_time-first r [] h = refl
  insert_by_time-first r (s ∷ ss) h = ground (arith, h)

  by_time-InOrder : (rs : List (AuditRow F)) → InOrder rs → by_time rs ≡ rs
  by_time-InOrder [] h = refl
  by_time-InOrder (r ∷ rs) (h, hs) =
      ap (insert_by_time r) (by_time-InOrder rs hs) ∙ insert_by_time-first r rs h

  -- Each record's audit rows were written in the order of their times.
  abbrev pub AllInOrder : Db F → Type 0
  AllInOrder db = (id : Uuid) → InOrder (audit_of id db.audit)

  row_complete :
      (db : Db F) (id : Uuid)
      → Trails db
      → AllInOrder db
      → trail_complete (row_snapshot id (find_state id db.states) (load_audit_entries id db)) ≡ true
  unfolding Trails
  row_complete db id kept order = elim (Option-cases (find_state id db.states)) [
    | inl absent ↦ rw absent ((trail_complete_iff _).1 (inl refl))
    | inr (r, found) ↦
        let (ne, w) = rw found at (kept id) in
        rw (found, by_time-InOrder (audit_of id db.audit) (order id))
          ((trail_complete_iff _).1 (inr (RecordState.new, ne, w)))
  ]

  scan_rows-clean :
      (batch : Option Uuid) (db : Db F) (rs : List RecordRow)
      → Trails db
      → AllInOrder db
      → faulty (scan_rows batch db rs) ≡ 0
  unfolding scan_rows
  scan_rows-clean batch db [] kept order = refl
  scan_rows-clean batch db (r ∷ rs) kept order =
      ground (arith, row_complete db r.id kept order, scan_rows-clean batch db rs kept order)

module _ (F : Type 0) ⦃fl : Float F⦄ where
  -- However the transactions of consumers, schedulers and delayed reports interleave from a database
  -- without states and audit rows, VerifyInvariants finds no incomplete trail and no impossible
  -- transition, in a batch or in all of them, as long as no report is applied to an attempt whose
  -- record has a claim in flight that still counts that attempt as the last one, and each record's
  -- audit rows were written in the order of their times.
  pub run-verified :
      (db : Db F) (s : System F) (run : Run (system db []) s)
      → Untouched db
      → AllTimely run
      → AllInOrder s.db
      → (batch : Option Uuid)
      → let r = verify_batch batch s.db in
        (r.incomplete_audit_trails ≡ 0) × (r.impossible_transitions ≡ 0)
  unfolding verify_batch scan_records
  run-verified db s run empty timely order batch =
      let kept = run-Kept F (system db []) s run timely (start-Kept F db empty) in
      let clean = scan_rows-clean batch s.db s.db.records kept.0 order in
      let counts = verify_invariants-counts (scan_records batch s.db) in
      (omega (arith, counts.1, clean), omega (arith, counts.1, clean))
