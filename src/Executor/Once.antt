-- ===== src/Executor/Once.antt =====
-- An attempt's action is started once at most, and a repeated request is answered from the row.
use momotaro.Prelude.{
  ℕ, ◌+◌, ◌≤◌, ◌==◌, ==_iff, ◌&&◌, ◌≡◌, refl, sym, ap, ◌∙◌, inl, inr, Bool, true, false, Option,
  none, some, List, [], ◌∷◌, ◌++◌, arith, Bool-cases, Option-cases, if◌then◌else◌,
}
use mathlib.Core.Path.{subst}
use momotaro.Platform.Time.{Time}
use momotaro.Proto.{Uuid}
use momotaro.Database.{Db, AttemptRow, find_record, find_attempt}
use momotaro.Executor.{Ports, PortResult, ExecuteRequest, Attempt, Checked, validate_execute}
use momotaro.Executor.Attempts.{
  Executed, Call, attempt_row, claim, fill_outcome, record_attempt_outcome, execute_attempt,
  execute, port_answer,
}

abbrev pub held : Bool → ℕ
held b = if b then 1 else 0

abbrev pub is_slot : Uuid → ℕ → Attempt → Bool
is_slot id n a = a.record_id == id && a.attempt_number == n

abbrev pub request_slot : Uuid → ℕ → ExecuteRequest → Bool
request_slot id n req = elim (validate_execute req) [
  | Checked.invalid e ↦ false
  | Checked.valid a ↦ is_slot id n a
]

module _ {F : Type 0} where
  -- The slot has a row.
  abbrev pub has_row : Uuid → ℕ → List (AttemptRow F) → Bool
  has_row id n rows = elim (find_attempt id n rows) [ none ↦ false | some r ↦ true ]

  append-has_row :
      (id : Uuid) (n : ℕ) (rows new : List (AttemptRow F))
      → has_row id n rows ≡ true
      → has_row id n (rows ++ new) ≡ true
  unfolding find_attempt
  append-has_row id n [] new h = cc
  append-has_row id n (r ∷ rs) new h = ground (arith, append-has_row id n rs new)

  new-has_row :
      (rows : List (AttemptRow F)) (new : Uuid) (a : Attempt) (now : Time)
      → has_row a.record_id a.attempt_number (rows ++ (attempt_row new a now ∷ [])) ≡ true
  unfolding find_attempt
  new-has_row [] new a now = ground arith
  new-has_row (r ∷ rs) new a now = ground (arith, new-has_row rs new a now)

  fill-has_row :
      (id : Uuid) (n : ℕ) (rows : List (AttemptRow F)) (new : Uuid) (res : PortResult)
      → has_row id n (fill_outcome new res rows) ≡ has_row id n rows
  unfolding find_attempt fill_outcome
  fill-has_row id n [] new res = refl
  fill-has_row id n (r ∷ rs) new res = ground (arith, fill-has_row id n rs new res)

  -- The runs of one call that are of the slot.
  abbrev runs_for : Bool → Executed F → ℕ
  runs_for mine x = if mine then x.runs else 0

  -- A run of the slot's action takes the slot, and a slot that is taken is not run again.
  abbrev Spends : Uuid → ℕ → Bool → Db F → Executed F → Type 0
  Spends id n mine db x =
      runs_for mine x + held (has_row id n db.attempts) ≤ held (has_row id n x.db.attempts)

  appended-held :
      (id : Uuid) (n : ℕ) (a : Attempt) (new : Uuid) (now : Time) (rows : List (AttemptRow F))
      → find_attempt a.record_id a.attempt_number rows ≡ none
      → held (is_slot id n a) + held (has_row id n rows)
        ≤ held (has_row id n (rows ++ (attempt_row new a now ∷ [])))
  appended-held id n a new now rows free = elim (Bool-cases (is_slot id n a)) [
    | inl mine ↦
        let at_id : a.record_id ≡ id = (==_iff a.record_id id).0 (ground arith) in
        let at_n : a.attempt_number ≡ n = (==_iff a.attempt_number n).0 (ground arith) in
        let before : find_attempt id n rows ≡ none =
          ap (λ k. find_attempt k n rows) (sym at_id)
          ∙ (ap (λ k. find_attempt a.record_id k rows) (sym at_n) ∙ free) in
        let there : has_row id n (rows ++ (attempt_row new a now ∷ [])) ≡ true =
          subst (λ k. has_row k n (rows ++ (attempt_row new a now ∷ [])) ≡ true) at_id
            (subst (λ k. has_row a.record_id k (rows ++ (attempt_row new a now ∷ [])) ≡ true) at_n
              (new-has_row rows new a now)) in
        let empty : has_row id n rows ≡ false = rw (before, has_row) refl in
        rw (mine, empty, there) (omega arith)
    | inr other ↦ elim (Bool-cases (has_row id n rows)) [
      | inl old ↦
          rw (other, old, append-has_row id n rows (attempt_row new a now ∷ []) old) (omega arith)
      | inr free_slot ↦ rw (other, free_slot) (omega arith)
    ]
  ]

  port_answer-Spends :
      (id : Uuid) (n : ℕ) (a : Attempt) (new : Uuid) (now : Time) (db : Db F)
      (res : Option PortResult)
      → find_attempt a.record_id a.attempt_number db.attempts ≡ none
      → Spends id n (is_slot id n a) db (
          port_answer new
            (record db { attempts = db.attempts ++ (attempt_row new a now ∷ []) })
            res)
  unfolding record_attempt_outcome
  port_answer-Spends id n a new now db none free = appended-held id n a new now db.attempts free
  port_answer-Spends id n a new now db (some res) free =
      rw (fill-has_row id n (db.attempts ++ (attempt_row new a now ∷ [])) new res)
        (appended-held id n a new now db.attempts free)

  execute_attempt-Spends :
      (id : Uuid) (n : ℕ) (ports : Ports) (call : Call F) (a : Attempt) (db : Db F)
      → Spends id n (is_slot id n a) db (execute_attempt ports call a db)
  unfolding execute_attempt claim
  execute_attempt-Spends id n ports call a db =
      elim (Option-cases (find_attempt a.record_id a.attempt_number db.attempts)) [
        | inr (row, taken) ↦ rw (taken, execute_attempt, claim) (ground arith)
        | inl free ↦ elim (Option-cases (find_record a.record_id db.records)) [
          | inl missing ↦ rw (free, missing, execute_attempt, claim) (ground arith)
          | inr (r, found) ↦
              rw (free, found, execute_attempt, claim)
                (port_answer-Spends id n a call.new call.now db _ free)
        ]
      ]

  -- Calls one after the other, each with its own ports, and how often they ran the slot's action.
  pub runs_of : Uuid → ℕ → List (Ports × Call F × ExecuteRequest) → Db F → ℕ
  runs_of id n [] db = 0
  runs_of id n ((ports, call, req) ∷ rest) db =
      let x = execute ports call req db in
      runs_for (request_slot id n req) x + runs_of id n rest x.db

  execute-Spends :
      (id : Uuid) (n : ℕ) (ports : Ports) (call : Call F) (req : ExecuteRequest) (db : Db F)
      → Spends id n (request_slot id n req) db (execute ports call req db)
  unfolding execute
  execute-Spends id n ports call req db = by_check (validate_execute req) refl
    where
      by_check :
          (c : Checked)
          → validate_execute req ≡ c
          → Spends id n (request_slot id n req) db (execute ports call req db)
      by_check (Checked.invalid e) h = rw (h, execute, request_slot) (omega arith)
      by_check (Checked.valid a) h =
          rw (h, execute, request_slot) (execute_attempt-Spends id n ports call a db)

  runs_of-bound :
      (id : Uuid) (n : ℕ) (calls : List (Ports × Call F × ExecuteRequest)) (db : Db F)
      → runs_of id n calls db + held (has_row id n db.attempts) ≤ 1
  unfolding runs_of
  runs_of-bound id n [] db = elim (Bool-cases (has_row id n db.attempts)) [
    | inl old ↦ rw old (omega arith)
    | inr free ↦ rw free (omega arith)
  ]
  runs_of-bound id n ((ports, call, req) ∷ rest) db =
      let one = execute-Spends id n ports call req db in
      let others = runs_of-bound id n rest (execute ports call req db).db in
      omega (arith, one, others)

  -- However many requests come, with whatever outcomes of the ports, the action of one record's
  -- attempt is started once at most, and not at all if the attempt has a row already.
  pub action-runs_once :
      (id : Uuid) (n : ℕ) (calls : List (Ports × Call F × ExecuteRequest)) (db : Db F)
      → (runs_of id n calls db ≤ 1) × (has_row id n db.attempts ≡ true → runs_of id n calls db ≡ 0)
  action-runs_once id n calls db =
      let bound = runs_of-bound id n calls db in
      (omega (arith, bound), λ old. ground (arith, bound))
