-- ===== src/Decision/Store/Claim.antt =====
-- `claimDue` and `loadNudged` of store.go: the scheduler's claim of due records, and the read of
-- one record for a delayed report.
use momotaro.Prelude.{
  ℕ, zero, suc, ◌&&◌, not, Bool, true, false, Option, none, some, List, [], ◌∷◌, ◌++◌, leb,
  if◌then◌else◌,
}
use momotaro.Platform.Float.{Float}
use momotaro.Prelude.Int.{pos}
use momotaro.Platform.Time.{Time}
use momotaro.Proto.{Uuid, RootCauseBucket, ActionType, RecordState}
use momotaro.Database.{
  Db, RecordRow, StateRow, find_record, find_state, update_state, read_bucket, read_action,
}
use momotaro.Decision.Routing.{StepReason, claimed_state}
use momotaro.Decision.Store.Writes.{StoreError, Result, ok, err, ClaimedRecord}

abbrev pub claim_batch_size : ℕ
claim_batch_size = 20

abbrev read_bucket_column : Option RootCauseBucket → RootCauseBucket
read_bucket_column none = RootCauseBucket.unspecified
read_bucket_column (some b) = read_bucket b

abbrev due_by : Time → Option Time → Bool
due_by now none = false
due_by now (some t) = leb t now

abbrev pub is_scheduled : RecordState → Bool
is_scheduled RecordState.retry_scheduled = true
is_scheduled RecordState.nudge_scheduled = true
is_scheduled _ = false

abbrev pub due_first : Option Time → Option Time → Bool
due_first (some a) (some b) = leb a b
due_first _ _ = true

module _ {F : Type 0} where
  abbrev or_else : F → Option F → F
  or_else d none = d
  or_else d (some x) = x

  -- The `WHERE` and `JOIN` of the query, and rows that another transaction has locked.
  unfoldable pub claimable : (Uuid → Bool) → Time → List RecordRow → StateRow F → Bool
  claimable locked now records r =
      due_by now r.due_at
      && is_scheduled r.current_state
      && not (locked r.record_id)
      && elim (find_record r.record_id records) [ none ↦ false | some _ ↦ true ]

  abbrev pub keep : (StateRow F → Bool) → List (StateRow F) → List (StateRow F)
  keep p [] = []
  keep p (r ∷ rs) = let rest = keep p rs in if p r then r ∷ rest else rest

  abbrev pub insert_due : StateRow F → List (StateRow F) → List (StateRow F)
  insert_due r [] = r ∷ []
  insert_due r (s ∷ ss) =
      let rest = insert_due r ss in if due_first r.due_at s.due_at then r ∷ s ∷ ss else s ∷ rest

  -- `ORDER BY due_at`.
  abbrev pub by_due : List (StateRow F) → List (StateRow F)
  by_due [] = []
  by_due (r ∷ rs) = insert_due r (by_due rs)

  abbrev pub take_rows : ℕ → List (StateRow F) → List (StateRow F)
  take_rows zero rs = []
  take_rows (suc n) [] = []
  take_rows (suc n) (r ∷ rs) = r ∷ take_rows n rs

  unfoldable pub due_rows : (Uuid → Bool) → Time → ℕ → Db F → List (StateRow F)
  unfolding claimable
  due_rows locked now limit db =
      take_rows limit (by_due (keep (claimable locked now db.records) db.states))

  -- The two statements of the loop, on one row.
  unfoldable pub claim_row : Time → StateRow F → RecordRow → Db F → Db F
  claim_row now r rec db = record db {
    states =
        update_state r.record_id
          (λ q. record q {
            current_state = claimed_state r.current_state;
            due_at = none;
            last_action_at = now;
          })
          db.states;
    audit =
        db.audit
        ++ (record {
          record_id = r.record_id;
          batch_id = rec.batch_id;
          ts = now;
          from_state = r.current_state;
          to_state = claimed_state r.current_state;
          why = StepReason.scheduler_claimed;
          rationale = none;
          source = none;
          decision_trace = none;
          attempt_number = r.attempt_count;
          cost_paise = none;
          message_text = none;
        }
            ∷ []);
  }

module _ {F : Type 0} ⦃fl : Float F⦄ where
  unfoldable pub claimed_record :
      StateRow F → ActionType → RecordRow → RecordState → RecordState → ClaimedRecord F
  claimed_record r pending rec from to = record {
    record_id = r.record_id;
    batch_id = rec.batch_id;
    from_state = from;
    claimed = to;
    pending_action = read_action pending;
    attempt_count = r.attempt_count;
    amount_paise = rec.amount_paise;
    bucket = read_bucket_column r.root_cause_bucket;
    type = rec.type;
    ev_score_at_decision = or_else (fl.of_int (pos 0)) r.ev_score_at_decision;
    p_recovery_at_decision = or_else (fl.of_int (pos 0)) r.p_recovery_at_decision;
    instrument_ref = rec.instrument_ref;
  }

  -- A NULL pending action does not scan, and the whole claim is rolled back.
  unfoldable pub claim_rows :
      Time → List (StateRow F) → Db F → Result (List (ClaimedRecord F) × Db F)
  claim_rows now [] db = ok ([], db)
  claim_rows now (r ∷ rs) db = elim r.pending_action [
    | none ↦ err StoreError.null_pending_action
    | some pending ↦ elim (find_record r.record_id db.records) [
      | none ↦ claim_rows now rs db
      | some rec ↦ elim (claim_rows now rs (claim_row now r rec db)) [
        | err e ↦ err e
        | ok (cs, db') ↦
            ok (
              claimed_record r pending rec r.current_state (claimed_state r.current_state) ∷ cs,
              db',
            )
      ]
    ]
  ]

  unfoldable pub claim_due :
      (Uuid → Bool) → Time → ℕ → Db F → Result (List (ClaimedRecord F) × Db F)
  unfolding due_rows claim_rows
  claim_due locked now limit db = claim_rows now (due_rows locked now limit db) db

  -- `none` is "not found"; the state is the record's own whatever it is.
  unfoldable pub load_nudged : Uuid → Db F → Option (ClaimedRecord F × RecordState)
  load_nudged id db = elim (find_state id db.states) [
    | none ↦ none
    | some r ↦ elim (find_record id db.records) [
      | none ↦ none
      | some rec ↦
          let pending : ActionType = elim r.pending_action [
            | none ↦ ActionType.unspecified
            | some a ↦ a
          ] in
          some (claimed_record r pending rec RecordState.nudged RecordState.nudged, r.current_state)
    ]
  ]
