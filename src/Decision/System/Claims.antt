-- ===== src/Decision/System/Claims.antt =====
-- What `claimDue` (store.go) leaves behind: the claims are in flight, and nothing else changed.
use momotaro.Prelude.{
  ℕ, ◌≤◌, ◌==◌, ==_iff, ◌≡◌, refl, ap, ◌∙◌, inl, inr, Bool, true, false, Option, some, List, [],
  ◌∷◌, ◌++◌, All, All-append, All-split, arith, Bool-cases, Option-cases,
}
use momotaro.Platform.Float.{Float}
use momotaro.Platform.Time.{Time}
use momotaro.Proto.{Uuid, ActionType, RecordState}
use momotaro.Database.{Db, RecordRow, StateRow, find_record, read_action}
use momotaro.Database.Keys.{Distinct, Distinct-head, update-Elsewhere, update-found}
use momotaro.Decision.Engine.Trails.{Result-cases}
use momotaro.Decision.Routing.{claimed_state}
use momotaro.Decision.Scheduler.Trails.{Claimed}
use momotaro.Decision.Store.Claim.{
  due_rows, is_scheduled, claim_row, claimed_record, claim_rows, claim_due,
}
use momotaro.Decision.Store.Trails.{Trails}
use momotaro.Decision.Store.Trails.Steps.{claim_row-Trails}
use momotaro.Decision.Store.Writes.{Result, ok, err, ClaimedRecord}
use momotaro.Decision.System.Due.{Ready, due_rows-Ready}
use momotaro.Decision.System.Sane.{
  Fits, Sane, Held, flights_of, flights_of-append, Flights, update-Sane, Elsewhere-AllHeld,
  scheduled-flights,
}

abbrev pub Kept : {F : Type 0} → Db F → List (ClaimedRecord F) → Type 0
Kept db flights = Trails db × Sane db.states × Flights db.states flights

claimed-Fits : (s : RecordState) (p : Option ActionType) → Fits (claimed_state s) p
unfolding claimed_state
claimed-Fits RecordState.retry_scheduled p = tt
claimed-Fits _ p = tt

claimed-Claimed :
    (s : RecordState) (a : ActionType)
    → is_scheduled s ≡ true
    → Fits s (some a)
    → Claimed (claimed_state s) (read_action a)
unfolding claimed_state
claimed-Claimed s a ready fit = ground arith

module _ {F : Type 0} where
  Flights-rotate :
      (rows : List (StateRow F)) (c : ClaimedRecord F) (cs flights : List (ClaimedRecord F))
      → Flights rows (cs ++ (c ∷ flights))
      → Flights rows ((c ∷ cs) ++ flights)
  Flights-rotate rows c cs flights (held, once) =
      let (left, (h, right)) = All-split (Held rows) cs (c ∷ flights) held in
      (
        (h, All-append (Held rows) cs flights left right),
        λ id. ground (
          arith,
          once id,
          flights_of-append id cs (c ∷ flights),
          flights_of-append id cs flights,
        ),
      )

  flights_of-once :
      (c : ClaimedRecord F) (cs : List (ClaimedRecord F))
      → flights_of c.record_id cs ≡ 0
      → ((id : Uuid) → flights_of id cs ≤ 1)
      → (id : Uuid) → flights_of id (c ∷ cs) ≤ 1
  flights_of-once c cs idle once id = elim (Bool-cases (id == c.record_id)) [
    | inl same ↦
        let at_c : id ≡ c.record_id = (==_iff id c.record_id).0 same in
        let none_left : flights_of id cs ≡ 0 = ap (λ j. flights_of j cs) at_c ∙ idle in
        ground (arith, same, none_left)
    | inr other ↦ ground (arith, other, once id)
  ]

  abbrev pub OnClaimed :
      (List (ClaimedRecord F) → Db F → Type 0) → Result (List (ClaimedRecord F) × Db F) → Type 0
  OnClaimed P (ok (cs, db)) = P cs db
  OnClaimed P (err e) = Unit

module _ (F : Type 0) ⦃fl : Float F⦄ where
  claim_row-Kept :
      (now : Time) (r : StateRow F) (rec : RecordRow) (a : ActionType) (db : Db F)
      (flights : List (ClaimedRecord F))
      → Ready db r
      → r.pending_action ≡ some a
      → Kept db flights
      → Kept
          (claim_row now r rec db)
          (claimed_record r a rec r.current_state (claimed_state r.current_state) ∷ flights)
  unfolding claim_row claimed_record
  claim_row-Kept now r rec a db flights (found, ready) pending (trails, sane, (held, once)) =
      let idle = scheduled-flights db.states r.record_id r flights found ready held in
      let fit : Fits r.current_state (some a) = rw pending at (sane.1 r.record_id r found) in
      (
        claim_row-Trails now r rec db found ready trails,
        update-Sane r.record_id _ db.states r (λ q. refl) found
            (claimed-Fits r.current_state r.pending_action) sane,
        (
          (
            (
              _,
              update-found r.record_id _ db.states r (λ q. refl) found,
              refl,
              refl,
              claimed-Claimed r.current_state a ready fit,
            ),
            Elsewhere-AllHeld r.record_id db.states _ flights
                (update-Elsewhere r.record_id _ db.states (λ q. refl)) idle held,
          ),
          flights_of-once (claimed_record r a rec r.current_state (claimed_state r.current_state))
              flights idle once,
        ),
      )

  Ready-after :
      (now : Time) (r : StateRow F) (rec : RecordRow) (db : Db F) (rs : List (StateRow F))
      → Distinct (r ∷ rs)
      → All (Ready db) rs
      → All (Ready (claim_row now r rec db)) rs
  unfolding claim_row
  Ready-after now r rec db rs d ready = go rs (Distinct-head r rs d) ready
    where
      go :
          (ss : List (StateRow F))
          → All (λ s. (r.record_id == s.record_id) ≡ false) ss
          → All (Ready db) ss
          → All (Ready (claim_row now r rec db)) ss
      go [] o k = tt
      go (s ∷ ss) (o, os) ((found, k), ks) = (
        (update-Elsewhere r.record_id _ db.states (λ q. refl) s.record_id o ∙ found, k),
        go ss os ks,
      )

  claim_rows-Kept :
      (now : Time) (rs : List (StateRow F)) (db : Db F) (flights : List (ClaimedRecord F))
      → Distinct rs
      → All (Ready db) rs
      → Kept db flights
      → OnClaimed (λ cs db'. Kept db' (cs ++ flights)) (claim_rows now rs db)
  unfolding claim_rows
  claim_rows-Kept now [] db flights d ready kept = kept
  claim_rows-Kept now (r ∷ rs) db flights d (here, ready) kept =
      elim (Option-cases r.pending_action) [
        | inl missing ↦ rw (missing, claim_rows) tt
        | inr (a, pending) ↦ elim (Option-cases (find_record r.record_id db.records)) [
          | inl gone ↦
              rw (pending, gone, claim_rows) (claim_rows-Kept now rs db flights d.1 ready kept)
          | inr (rec, is) ↦
              let c = claimed_record r a rec r.current_state (claimed_state r.current_state) in
              let rest =
                claim_rows-Kept now rs (claim_row now r rec db) (c ∷ flights) d.1
                  (Ready-after now r rec db rs d ready)
                  (claim_row-Kept now r rec a db flights here pending kept) in
              elim (Result-cases (claim_rows now rs (claim_row now r rec db))) [
                | inl (e, failed) ↦ rw (pending, is, failed, claim_rows) tt
                | inr ((cs, db'), claimed) ↦
                    let (trails, sane, flying) = rw claimed at rest in
                    rw (pending, is, claimed, claim_rows)
                      (trails, sane, Flights-rotate db'.states c cs flights flying)
              ]
        ]
      ]

  pub claim_due-Kept :
      (locked : Uuid → Bool) (now : Time) (limit : ℕ) (db : Db F) (flights : List (ClaimedRecord F))
      → Kept db flights
      → OnClaimed (λ cs db'. Kept db' (cs ++ flights)) (claim_due locked now limit db)
  unfolding claim_due
  claim_due-Kept locked now limit db flights kept =
      let (d, ready) = due_rows-Ready locked now limit db kept.1.0 in
      claim_rows-Kept now (due_rows locked now limit db) db flights d ready kept
