-- ===== src/Decision/Store/Trails.antt =====
-- Every write keeps each record's audit rows a walk of the state machine from New to the record's
-- current state (store.go against services/audit's statemachine.go).
pub mod Steps
use momotaro.Prelude.{
  ℕ, ◌==◌, ==_iff, ◌≡◌, ◌≢◌, refl, sym, ap, ◌∙◌, ◌⊎◌, inl, inr, Bool, true, false, Option, none,
  some, List, [], ◌∷◌, ◌++◌, map, All, arith, Bool-cases, Option-cases, if◌then◌else◌,
}
use mathlib.Core.List.{append-nil}
use momotaro.Proto.{Uuid, RecordState}
use momotaro.Audit.{Transition}
use momotaro.Audit.Store.{edge, edges}
use momotaro.Audit.Trails.{Walk, IsAllowed}
use momotaro.Database.{Db, StateRow, AuditRow, find_state, update_state, audit_of}
use momotaro.Database.Rows.{map_option, find-update, find-append, find-append_old, audit-append}

pub Walk-append :
    (a b c : RecordState) (ts us : List Transition)
    → Walk a ts b
    → Walk b us c
    → Walk a (ts ++ us) c
Walk-append a b c [] us w v = rw w v
Walk-append a b c (t ∷ ts) us (e, ok, w) v = (e, ok, Walk-append t.to b c ts us w v)

ne-append : (ts us : List Transition) → us ≢ [] → ts ++ us ≢ []
ne-append [] us h = h
ne-append (t ∷ ts) us h = λ e. cc

module _ {F : Type 0} where
  abbrev pub Kept : Option (StateRow F) → List Transition → Type 0
  Kept none ts = ts ≡ []
  Kept (some r) ts = (ts ≢ []) × Walk RecordState.new ts r.current_state

  -- A record's audit rows in the order of their writes.
  abbrev pub written_entries : Uuid → Db F → List Transition
  written_entries id db = edges (audit_of id db.audit)

  -- The trails of all records agree with their states.
  unfoldable pub Trails : Db F → Type 0
  Trails db = (id : Uuid) → Kept (find_state id db.states) (written_entries id db)

  abbrev pub AllOf : Uuid → List (AuditRow F) → Type 0
  AllOf id rows = All (λ r. r.record_id ≡ id) rows

  edges-append : (xs ys : List (AuditRow F)) → edges (xs ++ ys) ≡ edges xs ++ edges ys
  edges-append [] ys = refl
  edges-append (x ∷ xs) ys = rw (edges-append xs ys) refl

  audit_of-AllOf :
      (id j : Uuid) (rows : List (AuditRow F))
      → AllOf id rows
      → audit_of j rows ≡ (if id == j then rows else [])
  unfolding audit_of
  audit_of-AllOf id j [] a = ground arith
  audit_of-AllOf id j (r ∷ rs) (e, es) = ground (arith, audit_of-AllOf id j rs es)

  -- The trail of `j` after rows of `id` were written.
  trail-write :
      (id j : Uuid) (old rows : List (AuditRow F))
      → AllOf id rows
      → edges (audit_of j (old ++ rows))
        ≡ edges (audit_of j old) ++ (if id == j then edges rows else [])
  trail-write id j old rows a = elim (Bool-cases (id == j)) [
    | inl e ↦
        rw (audit-append j old rows, audit_of-AllOf id j rows a, e)
          (edges-append (audit_of j old) rows)
    | inr e ↦
        rw (audit-append j old rows, audit_of-AllOf id j rows a, e)
          (edges-append (audit_of j old) [])
  ]

  edges-ne : (rows : List (AuditRow F)) → rows ≢ [] → edges rows ≢ []
  edges-ne [] h = absurd (h refl)
  edges-ne (r ∷ rs) h = λ e. cc

  -- An update of one record's row with the rows of a walk from its state to the new one.
  pub Trails-write :
      (db : Db F) (id : Uuid) (f : StateRow F → StateRow F) (rows : List (AuditRow F))
      (s : StateRow F)
      → Trails db
      → find_state id db.states ≡ some s
      → ((r : StateRow F) → (f r).record_id ≡ r.record_id)
      → AllOf id rows
      → rows ≢ []
      → Walk s.current_state (edges rows) (f s).current_state
      → Trails (record db { states = update_state id f db.states; audit = db.audit ++ rows })
  unfolding Trails
  Trails-write db id f rows s t found key own some_rows walk j = elim (Bool-cases (id == j)) [
    | inl same ↦
        let at_j : id ≡ j = (==_iff id j).0 same in
        let found_j : find_state j db.states ≡ some s = rw (← at_j) found in
        let (ne, w) = rw found_j at (t j) in
        rw (find-update id j f db.states key, trail-write id j db.audit rows own, same, found_j)
          (
            ne-append (written_entries j db) (edges rows) (edges-ne rows some_rows),
            Walk-append RecordState.new s.current_state (f s).current_state (written_entries j db)
                (edges rows) w walk,
          )
    | inr other ↦
        rw
          (
            find-update id j f db.states key,
            trail-write id j db.audit rows own,
            other,
            append-nil (written_entries j db),
          )
          (t j)
  ]

  -- The first row of a record that had none.
  pub Trails-insert :
      (db : Db F) (s : StateRow F) (rows : List (AuditRow F))
      → Trails db
      → find_state s.record_id db.states ≡ none
      → AllOf s.record_id rows
      → rows ≢ []
      → Walk RecordState.new (edges rows) s.current_state
      → Trails (record db { states = db.states ++ (s ∷ []); audit = db.audit ++ rows })
  unfolding Trails
  Trails-insert db s rows t absent own some_rows walk j = elim (Bool-cases (s.record_id == j)) [
    | inl same ↦
        let at_j : s.record_id ≡ j = (==_iff s.record_id j).0 same in
        let absent_j : find_state j db.states ≡ none = rw (← at_j) absent in
        let empty : written_entries j db ≡ [] = rw absent_j at (t j) in
        rw
          (
            find-append j db.states s absent_j,
            trail-write s.record_id j db.audit rows own,
            same,
            empty,
          )
          (edges-ne rows some_rows, walk)
    | inr other ↦
        rw (trail-write s.record_id j db.audit rows own, other, append-nil (written_entries j db))
          (keep_other other (Option-cases (find_state j db.states)) (t j))
  ]
    where
      keep_other :
          (s.record_id == j) ≡ false
          → (find_state j db.states ≡ none) ⊎ ((q : StateRow F) × (find_state j db.states ≡ some q))
          → Kept (find_state j db.states) (written_entries j db)
          → Kept (find_state j (db.states ++ (s ∷ []))) (written_entries j db)
      keep_other other (inl e) k =
          let none_left : written_entries j db ≡ [] = rw e at k in
          rw (find-append j db.states s e, other) none_left
      keep_other other (inr (q, e)) k =
          let kept : Kept (some q) (written_entries j db) = rw e at k in
          rw (find-append_old j db.states s e) kept
