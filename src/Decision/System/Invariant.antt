-- ===== src/Decision/System/Invariant.antt =====
-- The invariant of the Decision Engine under every interleaving of its transactions.
use mathlib.Core.Path.{subst}
use momotaro.Prelude.Int.{pos}
use momotaro.Prelude.{
  ◌⊎◌, Option, ℕ, ◌==◌, ◌||◌, not, ◌≡◌, ◌≢◌, refl, sym, ap, ◌∙◌, inl, inr, none, some, List, [],
  ◌∷◌, ◌++◌, All, arith, Bool-cases, Option-cases,
}
use momotaro.Platform.Float.{Float}
use momotaro.Platform.Time.{Time}
use momotaro.Proto.{ActionType, Uuid, RecordState, Outcome, is_state}
use momotaro.Database.{Db, StateRow, find_state, audit_of}
use momotaro.Decision.Economics.{Model, Score, zero_score}
use momotaro.Decision.Engine.{EngineConfig}
use momotaro.Decision.Engine.Trails.{handle_message-Trails}
use momotaro.Decision.Routing.{StateStep, DecisionTrace, empty_trace, rescoring_path}
use momotaro.Decision.Scheduler.{ReportReads, route_again, resume_nudge}
use momotaro.Decision.Scheduler.Reports.{ReportHolds, resume_nudge-Holds, resume_nudge-Trails}
use momotaro.Decision.Scheduler.Trails.{OnResumed, process-Trails}
use momotaro.Decision.Store.Reads.{record_downtime_event}
use momotaro.Decision.Store.Trails.{Trails}
use momotaro.Decision.Store.Trails.Steps.{OnApplied}
use momotaro.Decision.Store.Writes.{ClaimedRecord, apply_resumed_outcome}
use momotaro.Decision.System.{System, Unclaimed, Untouched, Step, Run, IsTimely, AllTimely}
use momotaro.Decision.System.Claims.{Kept, claim_due-Kept}
use momotaro.Decision.System.Sane.{Held, Flights-remove, Elsewhere-AllHeld, differs-flights}
use momotaro.Decision.System.Writes.{process-Moved, resume_nudge-Moved, handle_message-Extended}

module _ {F : Type 0} where
  Extended-AllHeld :
      (old new : List (StateRow F)) (cs : List (ClaimedRecord F))
      → ((k : Uuid) (r : StateRow F) → find_state k old ≡ some r → find_state k new ≡ some r)
      → All (Held old) cs
      → All (Held new) cs
  Extended-AllHeld old new [] same held = tt
  Extended-AllHeld old new (c ∷ cs) same ((r, found, state, count, k), hs) =
      ((r, same c.record_id r found, state, count, k), Extended-AllHeld old new cs same hs)

  Unclaimed-flights :
      (rows : List (StateRow F)) (id : Uuid) (n : ℕ) (r : StateRow F) (cs : List (ClaimedRecord F))
      → find_state id rows ≡ some r
      → r.attempt_count ≡ n
      → Unclaimed cs id n
      → All (Held rows) cs
      → All (λ c. c.record_id ≢ id) cs
  Unclaimed-flights rows id n r [] found at_n un held = tt
  Unclaimed-flights rows id n r (c ∷ cs) found at_n (inl other, un) (h, hs) =
      (other, Unclaimed-flights rows id n r cs found at_n un hs)
  Unclaimed-flights rows id n r (c ∷ cs) found at_n (inr newer, un)
        ((q, found_q, state, count, k), hs) =
      (
        λ e.
            let found_c : find_state c.record_id rows ≡ some r =
              ap (λ j. find_state j rows) e ∙ found in
            let it : q ≡ r = cc in absurd (newer (sym count ∙ ap (λ x. x.attempt_count) it ∙ at_n)),
        Unclaimed-flights rows id n r cs found at_n un hs,
      )

module _ (F : Type 0) ⦃fl : Float F⦄ where
  -- The database is unchanged, or the record waited for the report's attempt.
  abbrev Landed : Uuid → ℕ → Db F → Db F → Type 0
  Landed id n db db' =
      (db' ≡ db) ⊎ ((r : StateRow F) × (find_state id db.states ≡ some r) × (r.attempt_count ≡ n))

  apply_resumed_outcome-Landed :
      (c : ClaimedRecord F) (n : ℕ) (ss : List (StateStep F)) (pending : ActionType)
      (score : Score F) (t : DecisionTrace F) (due : Option Time) (now : Time) (db : Db F)
      → OnApplied
          (Landed c.record_id n db)
          (apply_resumed_outcome c n ss pending score t due (pos 0) now db)
  unfolding apply_resumed_outcome
  apply_resumed_outcome-Landed c n [] pending score t due now db = tt
  apply_resumed_outcome-Landed c n (s ∷ ss) pending score t due now db =
      elim (Option-cases (find_state c.record_id db.states)) [
        | inl missing ↦ rw (missing, apply_resumed_outcome) tt
        | inr (r, found) ↦
            let there = found in
            elim (Bool-cases
              (not (is_state r.current_state RecordState.nudged) || not (r.attempt_count == n))) [
                | inl stale ↦ rw (found, stale, apply_resumed_outcome) (inl refl)
                | inr live ↦
                    let count : r.attempt_count ≡ n = ground (arith, live) in
                    rw (found, live, apply_resumed_outcome) (inr (r, there, count))
              ]
      ]

  -- Whatever was read, a report changes only a record that waits for its attempt when it is applied.
  resume_nudge-Landed :
      (zone : ℕ) (m : Model) (cfg : EngineConfig F) (id : Uuid) (n : ℕ) (outcome : Outcome)
      (now : Time) (reads : ReportReads F) (db : Db F)
      → OnResumed (Landed id n db) (resume_nudge zone m cfg id n outcome now reads db)
  unfolding ReportHolds
  resume_nudge-Landed zone m cfg id n outcome now reads db =
      resume_nudge-Holds F (Landed id n db) zone m cfg id n outcome now reads db (λ c own at_nudged.
        rw (← own) (
          apply_resumed_outcome-Landed c n _ ActionType.unspecified zero_score empty_trace none now
              db,
          λ h d due.
              let to = route_again m cfg c h d now in
              apply_resumed_outcome-Landed c n (rescoring_path c.claimed to.state to.why)
                to.pending_action to.score to.trace due now db,
        ))

  -- Every timely step keeps the invariant: the trails are walks that end in the records' states, keys are
  -- distinct, scheduled records have a pending action of their kind, and each claim in flight finds
  -- its record as it left it.
  step-Kept :
      (s t : System F) (step : Step s t)
      → IsTimely step
      → Kept s.db s.in_flight
      → Kept t.db t.in_flight
  unfolding Trails record_downtime_event
  step-Kept s t (Step.message zone m cfg classify now e {db} {db'} {flights} it) un
        (trails, sane, (held, once)) =
      let trails' : Trails db' =
        rw it at (handle_message-Trails F zone m cfg classify now (some e) db trails) in
      let (sane', same) = rw it at (handle_message-Extended F zone m cfg classify now e db sane) in
      (trails', sane', (Extended-AllHeld db.states db'.states flights same held, once))
  step-Kept s t (Step.picked locked now limit {db} {db'} {flights} it) un kept =
      rw it at (claim_due-Kept F locked now limit db flights kept)
  step-Kept s t (Step.processed zone m cfg compose execute now c before behind {db} {db'} it) un
        (trails, sane, flying) =
      let (h, idle, (held, once)) = Flights-remove db.states c before behind flying in
      let (r, found, state, count, k) = h in
      let trails' : Trails db' =
        rw it at (process-Trails F zone m cfg compose execute c now db r found state k trails) in
      let (sane', same) =
        rw it at (process-Moved F zone m cfg compose execute c now db r found sane) in
      (
        trails',
        sane',
        (
          Elsewhere-AllHeld c.record_id db.states db'.states (before ++ behind) same idle held,
          once,
        ),
      )
  step-Kept s t (Step.lost c before behind {db}) un (trails, sane, flying) =
      let (h, idle, rest) = Flights-remove db.states c before behind flying in (trails, sane, rest)
  step-Kept s t
        (Step.reported zone m cfg id n outcome now reads {db} {db'} {flights} {state} {event} it) un
        (trails, sane, (held, once)) =
      let landed : Landed id n db db' =
        rw it at (resume_nudge-Landed zone m cfg id n outcome now reads db) in
      elim landed [
        | inl same ↦ subst (λ (x : Db F). Kept x flights) (sym same) (trails, sane, (held, once))
        | inr (r, found, count) ↦
            let idle =
              differs-flights id flights
                (Unclaimed-flights db.states id n r flights found count un held) in
            let trails' : Trails db' =
              rw it at (resume_nudge-Trails F zone m cfg id n outcome now reads db trails) in
            let (sane', same) =
              rw it at (resume_nudge-Moved F zone m cfg id n outcome now reads db sane) in
            (
              trails',
              sane',
              (Elsewhere-AllHeld id db.states db'.states flights same idle held, once),
            )
      ]
  step-Kept s t (Step.downtime e {db}) un kept = kept
  step-Kept s t (Step.elsewhere records attempts {db}) un kept = kept

  pub start-Kept : (db : Db F) → Untouched db → Kept db []
  unfolding Trails find_state audit_of
  start-Kept db (no_states, no_audit) = (
    λ id. rw (no_states, no_audit) refl,
    (rw no_states tt, λ id r e. let none_there : none ≡ some r = rw no_states at e in cc),
    (tt, λ id. omega arith),
  )

  pub run-Kept :
      (s t : System F) (run : Run s t)
      → AllTimely run
      → Kept s.db s.in_flight
      → Kept t.db t.in_flight
  run-Kept s t Run.stop timely kept = kept
  run-Kept s u (Run.next {t = t} run step) (before, timely) kept =
      step-Kept t u step timely (run-Kept s t run before kept)
