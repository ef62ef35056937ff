-- ===== src/Decision/Store/Writes.antt =====
-- The writing transactions of store.go: `scheduleNew`, `claimDue`, `recordOutcome`,
-- `recordRescore` and `applyResumedOutcome`.
use momotaro.Prelude.{
  ℕ, ◌==◌, ◌||◌, not, Bool, true, false, Option, none, some, List, [], ◌∷◌, ◌++◌, String,
  if◌then◌else◌,
}
use momotaro.Prelude.Int.{ℤ, pos}
use momotaro.Platform.Time.{Time}
use momotaro.Proto.{
  Uuid, RecordType, RootCauseBucket, ActionType, RecordState, Source, is_unspecified, is_state,
}
use momotaro.Database.{Db, StateRow, AuditRow, find_record, find_state, update_state}
use momotaro.Decision.Economics.{Score}
use momotaro.Decision.Routing.{StateStep, StepReason, DecisionTrace}

pub data StoreError : Type 0 where
  no_transitions record_not_found duplicate_key null_pending_action no_rows : StoreError

pub data Result (A : Type 0) : Type 0 where
  ok : A → Result A
  err : StoreError → Result A

-- What `scheduleNew` reads of the event and the classification.
pub record Scheduled : Type 0 where
  pub record_id : Uuid
  pub batch_id : Uuid
  pub bucket : RootCauseBucket
  pub rationale : String
  pub source : Source

pub record ClaimedRecord (F : Type 0) : Type 0 where
  pub record_id : Uuid
  pub batch_id : Uuid
  pub from_state : RecordState
  pub claimed : RecordState
  pub pending_action : ActionType
  pub attempt_count : ℕ
  pub amount_paise : ℤ
  pub bucket : RootCauseBucket
  pub type : RecordType
  pub ev_score_at_decision : F
  pub p_recovery_at_decision : F
  pub instrument_ref : Option String  -- `none` is ""

unfoldable pub null_if_unspecified : ActionType → Option ActionType
null_if_unspecified a = if is_unspecified a then none else some a

module _ {F : Type 0} where
  abbrev pub last_step : StateStep F → List (StateStep F) → StateStep F
  last_step s [] = s
  last_step s (t ∷ ts) = last_step t ts

  -- `encodeDecisionTrace`: NULL for an empty trace.
  unfoldable pub encode_decision_trace : DecisionTrace F → Option (DecisionTrace F)
  encode_decision_trace t = elim t.candidates [
    | [] ↦ elim t.blocked [ [] ↦ none | _ ↦ some t ]
    | _ ↦ some t
  ]

  -- The trace goes with the step that leaves Scoring only.
  abbrev step_trace : DecisionTrace F → StateStep F → Option (DecisionTrace F)
  step_trace t s = if is_state s.from RecordState.scoring then encode_decision_trace t else none

  unfoldable pub score_columns : Score F → Option F × Option F
  score_columns s =
      if is_unspecified s.action then (none, none) else (some s.ev_paise, some s.p_recovery)

  -- The audit rows of `scheduleNew`.
  unfoldable pub new_audit :
      Scheduled → Time → DecisionTrace F → List (StateStep F) → List (AuditRow F)
  unfolding encode_decision_trace
  new_audit e now t [] = []
  new_audit e now t (s ∷ ss) =
      record {
        record_id = e.record_id;
        batch_id = e.batch_id;
        ts = now;
        from_state = s.from;
        to_state = s.to;
        why = s.why;
        rationale = some e.rationale;
        source = some e.source;
        decision_trace = step_trace t s;
        attempt_number = 0;
        cost_paise = none;
        message_text = none;
      }
      ∷ new_audit e now t ss

  unfoldable pub schedule_new :
      Scheduled
      → List (StateStep F)
      → ActionType
      → Score F
      → DecisionTrace F
      → Option Time
      → Time
      → Db F
      → Result (Db F)
  unfolding score_columns null_if_unspecified
  schedule_new e [] pending score t due now db = err StoreError.no_transitions
  schedule_new e (s ∷ ss) pending score t due now db = elim (find_record e.record_id db.records) [
    | none ↦ err StoreError.record_not_found
    | some r ↦ elim (find_state e.record_id db.states) [
      | some old ↦ err StoreError.duplicate_key
      | none ↦ ok (record db {
        states =
            db.states
            ++ (record {
              record_id = e.record_id;
              current_state = (last_step s ss).to;
              attempt_count = 0;
              root_cause_bucket = some e.bucket;
              pending_action = null_if_unspecified pending;
              due_at = due;
              ev_score_at_decision = (score_columns score).0;
              p_recovery_at_decision = (score_columns score).1;
              last_action_at = now;
            }
                ∷ []);
        audit = db.audit ++ new_audit e now t (s ∷ ss);
      })
    ]
  ]

  -- The audit rows of `recordRescore` and `applyResumedOutcome`: the attempt's cost goes with the
  -- first step.
  unfoldable pub rescore_audit :
      ClaimedRecord F → Time → DecisionTrace F → ℕ → ℤ → List (StateStep F) → List (AuditRow F)
  unfolding encode_decision_trace
  rescore_audit c now t n cost [] = []
  rescore_audit c now t n cost (s ∷ ss) =
      record {
        record_id = c.record_id;
        batch_id = c.batch_id;
        ts = now;
        from_state = s.from;
        to_state = s.to;
        why = s.why;
        rationale = none;
        source = none;
        decision_trace = step_trace t s;
        attempt_number = n;
        cost_paise = some cost;
        message_text = none;
      }
      ∷ rescore_audit c now t n (pos 0) ss

  abbrev rescored :
      RecordState → ActionType → Score F → Option Time → ℕ → Time → StateRow F → StateRow F
  unfolding score_columns null_if_unspecified
  rescored final pending score due n now r = record r {
    current_state = final;
    attempt_count = n;
    pending_action = null_if_unspecified pending;
    due_at = due;
    ev_score_at_decision = (score_columns score).0;
    p_recovery_at_decision = (score_columns score).1;
    last_action_at = now;
  }

  unfoldable pub record_rescore :
      ClaimedRecord F
      → List (StateStep F)
      → ActionType
      → Score F
      → DecisionTrace F
      → Option Time
      → ℕ
      → ℤ
      → Time
      → Db F
      → Result (Db F)
  unfolding score_columns null_if_unspecified
  record_rescore c [] pending score t due n cost now db = err StoreError.no_transitions
  record_rescore c (s ∷ ss) pending score t due n cost now db = ok (record db {
    states =
        update_state c.record_id (rescored (last_step s ss).to pending score due n now) db.states;
    audit = db.audit ++ rescore_audit c now t n cost (s ∷ ss);
  })

  unfoldable pub record_outcome :
      ClaimedRecord F → RecordState → StepReason F → ℕ → ℤ → String → Time → Db F → Result (Db F)
  record_outcome c to why n cost message now db = ok (record db {
    states =
        update_state c.record_id
          (λ r. record r { current_state = to; attempt_count = n; last_action_at = now }) db.states;
    audit =
        db.audit
        ++ (record {
          record_id = c.record_id;
          batch_id = c.batch_id;
          ts = now;
          from_state = c.claimed;
          to_state = to;
          why = why;
          rationale = none;
          source = none;
          decision_trace = none;
          attempt_number = n;
          cost_paise = some cost;
          message_text = some message;
        }
            ∷ []);
  })

  -- `false` is a report that is discarded: the record moved on before the lock was taken.
  unfoldable pub apply_resumed_outcome :
      ClaimedRecord F
      → ℕ
      → List (StateStep F)
      → ActionType
      → Score F
      → DecisionTrace F
      → Option Time
      → ℤ
      → Time
      → Db F
      → Result (Bool × Db F)
  unfolding score_columns null_if_unspecified
  apply_resumed_outcome c n [] pending score t due cost now db = err StoreError.no_transitions
  apply_resumed_outcome c n (s ∷ ss) pending score t due cost now db =
      elim (find_state c.record_id db.states) [
        | none ↦ err StoreError.no_rows
        | some r ↦
            if not (is_state r.current_state RecordState.nudged) || not (r.attempt_count == n)
            then ok (false, db)
            else ok (
              true,
              record db {
                states =
                    update_state c.record_id (rescored (last_step s ss).to pending score due n now)
                      db.states;
                audit = db.audit ++ rescore_audit c now t n cost (s ∷ ss);
              },
            )
      ]
