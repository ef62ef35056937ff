-- ===== src/Decision/System/Due.antt =====
-- The rows that `claimDue` (store.go) picks: scheduled rows of the table, each once.
use momotaro.Prelude.{
  ℕ, zero, suc, ◌==◌, ◌≡◌, refl, inl, inr, Bool, true, false, none, some, List, [], ◌∷◌, All,
  All-map, arith, Bool-cases,
}
use momotaro.Platform.Time.{Time}
use momotaro.Proto.{Uuid}
use momotaro.Database.{Db, RecordRow, StateRow, find_state}
use momotaro.Database.Keys.{Distinct, cons-none, none-cons, Distinct-found}
use momotaro.Decision.Store.Claim.{
  keep, due_first, insert_due, by_due, take_rows, claimable, due_rows, is_scheduled,
}

module _ {F : Type 0} where
  keep-none :
      (p : StateRow F → Bool) (j : Uuid) (rs : List (StateRow F))
      → find_state j rs ≡ none
      → find_state j (keep p rs) ≡ none
  unfolding find_state
  keep-none p j [] e = refl
  keep-none p j (r ∷ rs) e = ground (arith, keep-none p j rs)

  keep-Distinct :
      (p : StateRow F → Bool) (rs : List (StateRow F)) → Distinct rs → Distinct (keep p rs)
  keep-Distinct p [] d = tt
  keep-Distinct p (r ∷ rs) d = elim (Bool-cases (p r)) [
    | inl kept ↦ rw kept (keep-none p r.record_id rs d.0, keep-Distinct p rs d.1)
    | inr left ↦ rw left (keep-Distinct p rs d.1)
  ]

  keep-All :
      (Q : StateRow F → Type 0) (p : StateRow F → Bool) (rs : List (StateRow F))
      → All Q rs
      → All (λ r. Q r × (p r ≡ true)) (keep p rs)
  keep-All Q p [] a = tt
  keep-All Q p (r ∷ rs) (q, qs) = elim (Bool-cases (p r)) [
    | inl kept ↦ rw kept ((q, kept), keep-All Q p rs qs)
    | inr left ↦ rw left (keep-All Q p rs qs)
  ]

  insert_due-none :
      (j : Uuid) (r : StateRow F) (rs : List (StateRow F))
      → find_state j (r ∷ rs) ≡ none
      → find_state j (insert_due r rs) ≡ none
  unfolding find_state
  insert_due-none j r [] e = e
  insert_due-none j r (s ∷ ss) e = ground (arith, insert_due-none j r ss)

  insert_due-Distinct :
      (r : StateRow F) (rs : List (StateRow F)) → Distinct (r ∷ rs) → Distinct (insert_due r rs)
  insert_due-Distinct r [] d = d
  insert_due-Distinct r (s ∷ ss) (free, d) = elim (Bool-cases (due_first r.due_at s.due_at)) [
    | inl first ↦ rw first (free, d)
    | inr after ↦
        let (differs, free') = cons-none r.record_id s ss free in
        let differs' : (s.record_id == r.record_id) ≡ false = ground arith in
        rw after (
          insert_due-none s.record_id r ss (none-cons s.record_id r ss differs' d.0),
          insert_due-Distinct r ss (free', d.1),
        )
  ]

  insert_due-All :
      (Q : StateRow F → Type 0) (r : StateRow F) (rs : List (StateRow F))
      → Q r
      → All Q rs
      → All Q (insert_due r rs)
  insert_due-All Q r [] q qs = (q, tt)
  insert_due-All Q r (s ∷ ss) q (p, ps) = elim (Bool-cases (due_first r.due_at s.due_at)) [
    | inl first ↦ rw first (q, (p, ps))
    | inr after ↦ rw after (p, insert_due-All Q r ss q ps)
  ]

  by_due-none :
      (j : Uuid) (rs : List (StateRow F)) → find_state j rs ≡ none → find_state j (by_due rs) ≡ none
  by_due-none j [] e = e
  by_due-none j (r ∷ rs) e =
      let (differs, free) = cons-none j r rs e in
      insert_due-none j r (by_due rs) (none-cons j r (by_due rs) differs (by_due-none j rs free))

  by_due-Distinct : (rs : List (StateRow F)) → Distinct rs → Distinct (by_due rs)
  by_due-Distinct [] d = tt
  by_due-Distinct (r ∷ rs) (free, d) =
      insert_due-Distinct r (by_due rs) (by_due-none r.record_id rs free, by_due-Distinct rs d)

  by_due-All : (Q : StateRow F → Type 0) (rs : List (StateRow F)) → All Q rs → All Q (by_due rs)
  by_due-All Q [] a = tt
  by_due-All Q (r ∷ rs) (q, qs) = insert_due-All Q r (by_due rs) q (by_due-All Q rs qs)

  take_rows-none :
      (j : Uuid) (n : ℕ) (rs : List (StateRow F))
      → find_state j rs ≡ none
      → find_state j (take_rows n rs) ≡ none
  unfolding find_state
  take_rows-none j zero rs e = refl
  take_rows-none j (suc n) [] e = refl
  take_rows-none j (suc n) (r ∷ rs) e = ground (arith, take_rows-none j n rs)

  take_rows-Distinct : (n : ℕ) (rs : List (StateRow F)) → Distinct rs → Distinct (take_rows n rs)
  take_rows-Distinct zero rs d = tt
  take_rows-Distinct (suc n) [] d = tt
  take_rows-Distinct (suc n) (r ∷ rs) (free, d) =
      (take_rows-none r.record_id n rs free, take_rows-Distinct n rs d)

  take_rows-All :
      (Q : StateRow F → Type 0) (n : ℕ) (rs : List (StateRow F)) → All Q rs → All Q (take_rows n rs)
  take_rows-All Q zero rs a = tt
  take_rows-All Q (suc n) [] a = tt
  take_rows-All Q (suc n) (r ∷ rs) (q, qs) = (q, take_rows-All Q n rs qs)

  -- A row of the table that is scheduled.
  abbrev pub Ready : Db F → StateRow F → Type 0
  Ready db r = (find_state r.record_id db.states ≡ some r) × (is_scheduled r.current_state ≡ true)

  claimable-scheduled :
      (locked : Uuid → Bool) (now : Time) (records : List RecordRow) (r : StateRow F)
      → claimable locked now records r ≡ true
      → is_scheduled r.current_state ≡ true
  unfolding claimable
  claimable-scheduled locked now records r e = ground arith

  pub due_rows-Ready :
      (locked : Uuid → Bool) (now : Time) (limit : ℕ) (db : Db F)
      → Distinct db.states
      → Distinct (due_rows locked now limit db) × All (Ready db) (due_rows locked now limit db)
  unfolding due_rows
  due_rows-Ready locked now limit db d =
      let p = claimable {F = F} locked now db.records in
      let picked = keep p db.states in
      let ready =
        All-map (λ r k. (k.0, claimable-scheduled locked now db.records r k.1)) picked
          (keep-All (λ r. find_state r.record_id db.states ≡ some r) p db.states
            (Distinct-found db.states d)) in
      (
        take_rows-Distinct limit (by_due picked)
            (by_due-Distinct picked (keep-Distinct p db.states d)),
        take_rows-All (Ready db) limit (by_due picked) (by_due-All (Ready db) picked ready),
      )
