-- ===== src/Executor/Replay.antt =====
-- A duplicate is answered from the row that the first request filled in, and its wait ends.
use momotaro.Prelude.{
  ℕ, zero, suc, ◌+◌, ◌≤◌, ◌==◌, ◌≡◌, ◌≢◌, refl, ap, ◌∙◌, ◌⊎◌, inl, inr, true, false, none, some,
  List, [], ◌∷◌, ◌++◌, All, arith, Bool-cases, leb,
}
use momotaro.Platform.Time.{Time}
use momotaro.Proto.{Uuid, Outcome}
use momotaro.Database.{Db, AttemptRow, RecordRow, find_record, find_attempt}
use momotaro.Executor.{Ports, PortResult, route, Attempt}
use momotaro.Executor.Attempts.{
  Loaded, Recorded, Answer, Call, attempt_row, claim, fill_outcome, is_marker, read_outcome,
  record_attempt_outcome, load, await, execute_attempt, port_answer,
}

-- An outcome that the enum has, other than the claim marker.
abbrev pub IsSettled : Outcome → Type 0
IsSettled o = (is_marker o ≡ false) × (read_outcome o ≡ o)

Loaded-cases :
    (x : Loaded)
    → (x ≡ Loaded.unresolved) ⊎ ((x ≡ Loaded.missing) ⊎ ((r : Recorded) × (x ≡ Loaded.resolved r)))
Loaded-cases Loaded.unresolved = inl refl
Loaded-cases Loaded.missing = inr (inl refl)
Loaded-cases (Loaded.resolved r) = inr (inr (r, refl))

module _ {F : Type 0} where
  filled-row :
      (rows : List (AttemptRow F)) (new : Uuid) (a : Attempt) (now : Time) (res : PortResult)
      → find_attempt a.record_id a.attempt_number rows ≡ none
      → All (λ r. (r.id == new) ≡ false) rows
      → find_attempt a.record_id a.attempt_number
          (fill_outcome new res (rows ++ (attempt_row new a now ∷ [])))
        ≡ some (record (attempt_row new a now) {
          outcome = res.outcome;
          cost_paise = res.cost_paise;
          failure_code = res.failure_code;
        })
  unfolding find_attempt fill_outcome
  filled-row [] new a now res free fresh = ground arith
  filled-row (r ∷ rs) new a now res free (other, others) =
      ground (arith, filled-row rs new a now res (ground arith) others)

  loaded :
      (db : Db F) (id : Uuid) (n : ℕ) (row : AttemptRow F)
      → find_attempt id n db.attempts ≡ some row
      → IsSettled row.outcome
      → load id n db
        ≡ Loaded.resolved (record {
          outcome = row.outcome;
          cost_paise = row.cost_paise;
          failure_code = row.failure_code;
        })
  unfolding load
  loaded db id n row found (settled, same) = rw (found, load) (rw (settled, same) refl)

  -- A call that finds the slot taken and its row settled.
  taken-answer :
      (ports : Ports) (call : Call F) (a : Attempt) (db : Db F) (row : AttemptRow F) (k : ℕ)
      → find_attempt a.record_id a.attempt_number db.attempts ≡ some row
      → IsSettled row.outcome
      → call.polls ≡ suc k
      → call.seen 0 ≡ db
      → execute_attempt ports call a db ≡ record {
        db = db;
        runs = 0;
        answer = Answer.answered (record {
          outcome = row.outcome;
          cost_paise = row.cost_paise;
          failure_code = row.failure_code;
          already_executed = true;
        });
      }
  unfolding execute_attempt claim await
  taken-answer ports call a db row k found settled polls at_db =
      let seen =
        ap (load a.record_id a.attempt_number) at_db
        ∙ loaded db a.record_id a.attempt_number row found settled in
      rw (found, execute_attempt, claim, polls, await, seen) refl

  execute_attempt-first :
      (ports : Ports) (call : Call F) (a : Attempt) (db : Db F) (r : RecordRow) (res : PortResult)
      → find_attempt a.record_id a.attempt_number db.attempts ≡ none
      → find_record a.record_id db.records ≡ some r
      → route ports a.record_id a.action_type a.attempt_number a.message ≡ some res
      → execute_attempt ports call a db
        ≡ port_answer call.new
            (record db { attempts = db.attempts ++ (attempt_row call.new a call.now ∷ []) })
            (some res)
  unfolding execute_attempt claim
  execute_attempt-first ports call a db r res free found answer =
      rw (free, found, answer, execute_attempt, claim) refl

  -- A request that claimed its slot and got an answer from the ports: when it comes again, nothing
  -- is run or written, and it gets the same outcome, cost and failure code, marked as already
  -- executed. The first call's row id must be new, the outcome one that the enum has and not
  -- unspecified, and the second call must see the table as the first one left it.
  pub duplicate-same_answer :
      (ports ports' : Ports) (call call' : Call F) (a : Attempt) (db : Db F) (r : RecordRow)
      (res : PortResult) (k : ℕ)
      → find_attempt a.record_id a.attempt_number db.attempts ≡ none
      → find_record a.record_id db.records ≡ some r
      → route ports a.record_id a.action_type a.attempt_number a.message ≡ some res
      → IsSettled res.outcome
      → All (λ q. (q.id == call.new) ≡ false) db.attempts
      → let first = execute_attempt ports call a db in
        call'.polls ≡ suc k
        → call'.seen 0 ≡ first.db
        → (first.answer
            ≡ Answer.answered (record {
              outcome = res.outcome;
              cost_paise = res.cost_paise;
              failure_code = res.failure_code;
              already_executed = false;
            }))
          × (execute_attempt ports' call' a first.db ≡ record {
            db = first.db;
            runs = 0;
            answer = Answer.answered (record {
              outcome = res.outcome;
              cost_paise = res.cost_paise;
              failure_code = res.failure_code;
              already_executed = true;
            });
          })
  unfolding record_attempt_outcome
  duplicate-same_answer ports ports' call call' a db r res k free found answer settled fresh polls
        at_first =
      let first = execute_attempt-first ports call a db r res free found answer in
      let row = filled-row db.attempts call.new a call.now res free fresh in
      let seen = at_first ∙ ap (λ x. x.db) first in
      rw first (refl, taken-answer ports' call' a _ _ k row settled polls seen)

  -- A poll that does not find a row still unresolved ends the wait.
  await-unresolved :
      (polls : ℕ) (seen : ℕ → Db F) (clock : ℕ → Time) (deadline : Time) (id : Uuid) (n k : ℕ)
      → (load id n (seen k) ≡ Loaded.unresolved
          → await (suc polls) seen clock deadline id n k ≢ Answer.cancelled)
      → await (suc polls) seen clock deadline id n k ≢ Answer.cancelled
  unfolding await
  await-unresolved polls seen clock deadline id n k go = elim (Loaded-cases (load id n (seen k))) [
    | inl e ↦ go e
    | inr (inl e) ↦ rw (e, await) (λ h. cc)
    | inr (inr (r, e)) ↦ rw (e, await) (λ h. cc)
  ]

  -- The wait ends by itself: if the clock has reached the deadline at some poll that the caller's
  -- context still covers, the call is not cancelled.
  pub await-ends :
      (j polls : ℕ) (seen : ℕ → Db F) (clock : ℕ → Time) (deadline : Time) (id : Uuid) (n k : ℕ)
      → deadline ≤ clock (k + j)
      → suc j ≤ polls
      → await polls seen clock deadline id n k ≢ Answer.cancelled
  unfolding await
  await-ends j zero seen clock deadline id n k late enough = absurd (omega arith)
  await-ends zero (suc polls) seen clock deadline id n k late enough =
      let here : clock (k + 0) ≡ clock k = ap clock (omega arith) in
      let over : leb deadline (clock k) ≡ true = ground (arith, here) in
      await-unresolved polls seen clock deadline id n k
        (λ unresolved. rw (unresolved, over, await) (λ e. cc))
  await-ends (suc j) (suc polls) seen clock deadline id n k late enough =
      let there : clock (k + suc j) ≡ clock (k + 1 + j) = ap clock (omega arith) in
      let rest =
        await-ends j polls seen clock deadline id n (k + 1) (omega (arith, there, late))
          (omega arith) in
      await-unresolved polls seen clock deadline id n k (λ unresolved.
        elim (Bool-cases (leb deadline (clock k))) [
          | inl over ↦ rw (unresolved, over, await) (λ e. cc)
          | inr early ↦ rw (unresolved, early, await) rest
        ])
