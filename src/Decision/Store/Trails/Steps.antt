-- ===== src/Decision/Store/Trails/Steps.antt =====
-- What each writing transaction of store.go does to the trails.
use momotaro.Prelude.{
  ℕ, ◌==◌, ◌||◌, not, ◌≡◌, ◌≢◌, refl, sym, inl, inr, Bool, true, Option, some, List, [], ◌∷◌, arith,
  Bool-cases, Option-cases, String,
}
use momotaro.Prelude.Int.{ℤ, pos}
use momotaro.Platform.Time.{Time}
use momotaro.Proto.{ActionType, RecordState, is_state, is_state→eq}
use momotaro.Audit.{Transition, is_allowed_transition}
use momotaro.Audit.Store.{edges}
use momotaro.Audit.Trails.{Walk, IsAllowed}
use momotaro.Database.{Db, RecordRow, StateRow, find_record, find_state}
use momotaro.Decision.Economics.{Score}
use momotaro.Decision.Routing.{StateStep, StepReason, DecisionTrace, claimed_state}
use momotaro.Decision.Store.Claim.{claim_row, is_scheduled}
use momotaro.Decision.Store.Writes.{
  Result, ok, err, Scheduled, ClaimedRecord, last_step, new_audit, rescore_audit, schedule_new,
  record_rescore, record_outcome, apply_resumed_outcome,
}
use momotaro.Decision.Store.Trails.{AllOf, Trails, Trails-write, Trails-insert}

claimed-IsAllowed : (s : RecordState) → is_scheduled s ≡ true → IsAllowed s (claimed_state s)
unfolding claimed_state is_allowed_transition
claimed-IsAllowed s h = ground arith

module _ {F : Type 0} where
  abbrev pub step_edges : List (StateStep F) → List Transition
  step_edges [] = []
  step_edges (s ∷ ss) = record { from = s.from; to = s.to } ∷ step_edges ss

  -- The steps are a walk of the state machine from `a` to the state of the last of them.
  abbrev pub WalkFrom : RecordState → StateStep F → List (StateStep F) → Type 0
  WalkFrom a s ss = Walk a (step_edges (s ∷ ss)) (last_step s ss).to

  new_audit-edges :
      (e : Scheduled) (now : Time) (t : DecisionTrace F) (ss : List (StateStep F))
      → edges (new_audit e now t ss) ≡ step_edges ss
  unfolding new_audit
  new_audit-edges e now t [] = refl
  new_audit-edges e now t (s ∷ ss) = rw (new_audit-edges e now t ss) refl

  new_audit-AllOf :
      (e : Scheduled) (now : Time) (t : DecisionTrace F) (ss : List (StateStep F))
      → AllOf e.record_id (new_audit e now t ss)
  unfolding new_audit
  new_audit-AllOf e now t [] = tt
  new_audit-AllOf e now t (s ∷ ss) = (refl, new_audit-AllOf e now t ss)

  new_audit-ne :
      (e : Scheduled) (now : Time) (t : DecisionTrace F) (s : StateStep F) (ss : List (StateStep F))
      → new_audit e now t (s ∷ ss) ≢ []
  unfolding new_audit
  new_audit-ne e now t s ss = λ h. cc

  rescore_audit-edges :
      (c : ClaimedRecord F) (now : Time) (t : DecisionTrace F) (n : ℕ) (cost : ℤ)
      (ss : List (StateStep F))
      → edges (rescore_audit c now t n cost ss) ≡ step_edges ss
  unfolding rescore_audit
  rescore_audit-edges c now t n cost [] = refl
  rescore_audit-edges c now t n cost (s ∷ ss) = rw (rescore_audit-edges c now t n (pos 0) ss) refl

  rescore_audit-AllOf :
      (c : ClaimedRecord F) (now : Time) (t : DecisionTrace F) (n : ℕ) (cost : ℤ)
      (ss : List (StateStep F))
      → AllOf c.record_id (rescore_audit c now t n cost ss)
  unfolding rescore_audit
  rescore_audit-AllOf c now t n cost [] = tt
  rescore_audit-AllOf c now t n cost (s ∷ ss) = (refl, rescore_audit-AllOf c now t n (pos 0) ss)

  rescore_audit-ne :
      (c : ClaimedRecord F) (now : Time) (t : DecisionTrace F) (n : ℕ) (cost : ℤ) (s : StateStep F)
      (ss : List (StateStep F))
      → rescore_audit c now t n cost (s ∷ ss) ≢ []
  unfolding rescore_audit
  rescore_audit-ne c now t n cost s ss = λ h. cc

  -- A result that, if it is a database, has the property.
  abbrev pub OnOk : (Db F → Type 0) → Result (Db F) → Type 0
  OnOk P (ok db) = P db
  OnOk P (err e) = Unit

  pub OnOk-weaken :
      (P Q : Db F → Type 0)
      → ((db : Db F) → P db → Q db)
      → (r : Result (Db F)) → OnOk P r
      → OnOk Q r
  OnOk-weaken P Q f (ok db) p = f db p
  OnOk-weaken P Q f (err e) p = tt

  pub schedule_new-Trails :
      (e : Scheduled) (s : StateStep F) (ss : List (StateStep F)) (pending : ActionType)
      (score : Score F) (t : DecisionTrace F) (due : Option Time) (now : Time) (db : Db F)
      → WalkFrom RecordState.new s ss
      → Trails db
      → OnOk Trails (schedule_new e (s ∷ ss) pending score t due now db)
  unfolding schedule_new
  schedule_new-Trails e s ss pending score t due now db w kept =
      elim (Option-cases (find_record e.record_id db.records)) [
        | inl missing ↦ rw (missing, schedule_new) tt
        | inr (r, found) ↦ elim (Option-cases (find_state e.record_id db.states)) [
          | inr (old, taken) ↦ rw (found, taken, schedule_new) tt
          | inl free ↦
              rw (found, free, schedule_new)
                (Trails-insert db _ (new_audit e now t (s ∷ ss)) kept free
                  (new_audit-AllOf e now t (s ∷ ss)) (new_audit-ne e now t s ss)
                  (rw (new_audit-edges e now t (s ∷ ss)) w))
        ]
      ]

  pub record_rescore-Trails :
      (c : ClaimedRecord F) (s : StateStep F) (ss : List (StateStep F)) (pending : ActionType)
      (score : Score F) (t : DecisionTrace F) (due : Option Time) (n : ℕ) (cost : ℤ) (now : Time)
      (db : Db F) (r : StateRow F)
      → find_state c.record_id db.states ≡ some r
      → WalkFrom r.current_state s ss
      → Trails db
      → OnOk Trails (record_rescore c (s ∷ ss) pending score t due n cost now db)
  unfolding record_rescore
  record_rescore-Trails c s ss pending score t due n cost now db r found w kept =
      Trails-write db c.record_id _ (rescore_audit c now t n cost (s ∷ ss)) r kept found (λ q. refl)
        (rescore_audit-AllOf c now t n cost (s ∷ ss)) (rescore_audit-ne c now t n cost s ss)
        (rw (rescore_audit-edges c now t n cost (s ∷ ss)) w)

  pub record_outcome-Trails :
      (c : ClaimedRecord F) (to : RecordState) (why : StepReason F) (n : ℕ) (cost : ℤ)
      (message : String) (now : Time) (db : Db F) (r : StateRow F)
      → find_state c.record_id db.states ≡ some r
      → r.current_state ≡ c.claimed
      → IsAllowed c.claimed to
      → Trails db
      → OnOk Trails (record_outcome c to why n cost message now db)
  unfolding record_outcome
  record_outcome-Trails c to why n cost message now db r found at_claimed allowed kept =
      Trails-write db c.record_id _ _ r kept found (λ q. refl) (refl, tt) (λ h. cc)
        (sym at_claimed, allowed, refl)

  pub claim_row-Trails :
      (now : Time) (r : StateRow F) (rec : RecordRow) (db : Db F)
      → find_state r.record_id db.states ≡ some r
      → is_scheduled r.current_state ≡ true
      → Trails db
      → Trails (claim_row now r rec db)
  unfolding claim_row
  claim_row-Trails now r rec db found h kept =
      Trails-write db r.record_id _ _ r kept found (λ q. refl) (refl, tt) (λ k. cc)
        (refl, claimed-IsAllowed r.current_state h, refl)

  abbrev pub OnApplied : (Db F → Type 0) → Result (Bool × Db F) → Type 0
  OnApplied P (ok (b, db)) = P db
  OnApplied P (err e) = Unit

  pub apply_resumed_outcome-Trails :
      (c : ClaimedRecord F) (n : ℕ) (s : StateStep F) (ss : List (StateStep F))
      (pending : ActionType) (score : Score F) (t : DecisionTrace F) (due : Option Time) (cost : ℤ)
      (now : Time) (db : Db F)
      → WalkFrom RecordState.nudged s ss
      → Trails db
      → OnApplied Trails (apply_resumed_outcome c n (s ∷ ss) pending score t due cost now db)
  unfolding apply_resumed_outcome
  apply_resumed_outcome-Trails c n s ss pending score t due cost now db w kept =
      elim (Option-cases (find_state c.record_id db.states)) [
        | inl missing ↦ rw (missing, apply_resumed_outcome) tt
        | inr (r, found) ↦
            elim (Bool-cases
              (not (is_state r.current_state RecordState.nudged) || not (r.attempt_count == n))) [
                | inl stale ↦ rw (found, stale, apply_resumed_outcome) kept
                | inr live ↦
                    let at_nudged : r.current_state ≡ RecordState.nudged =
                      is_state→eq r.current_state RecordState.nudged (ground arith) in
                    let walk : WalkFrom r.current_state s ss = rw at_nudged w in
                    rw (found, live, apply_resumed_outcome)
                      (Trails-write db c.record_id _ (rescore_audit c now t n cost (s ∷ ss)) r kept
                        found (λ q. refl) (rescore_audit-AllOf c now t n cost (s ∷ ss))
                        (rescore_audit-ne c now t n cost s ss)
                        (rw (rescore_audit-edges c now t n cost (s ∷ ss)) walk))
              ]
      ]
