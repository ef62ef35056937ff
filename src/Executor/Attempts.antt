-- ===== src/Executor/Attempts.antt =====
-- services/executor/internal/attempt (store.go, await.go) and Execute of server/server.go: a slot
-- (record, attempt number) is claimed by an insert before the action runs.
use momotaro.Prelude.{
  ℕ, zero, suc, ◌+◌, ◌==◌, Bool, true, false, Option, none, some, List, [], ◌∷◌, ◌++◌, String, leb,
  if◌then◌else◌,
}
use momotaro.Prelude.Int.{ℤ, pos}
use momotaro.Platform.Time.{Time}
use momotaro.Proto.{Uuid, Outcome}
use momotaro.Database.{Db, AttemptRow, find_record, find_attempt}
use momotaro.Executor.{
  Ports, PortResult, route, ExecuteRequest, InvalidRequest, Attempt, Checked, validate_execute,
}

pub record Recorded : Type 0 where
  pub outcome : Outcome
  pub cost_paise : ℤ
  pub failure_code : String

pub data Claim (F : Type 0) : Type 0 where
  claimed : Db F → Claim F
  taken : Claim F
  unknown_record : Claim F

pub data Loaded : Type 0 where
  missing unresolved : Loaded
  resolved : Recorded → Loaded

pub record ExecuteResponse : Type 0 where
  pub outcome : Outcome
  pub cost_paise : ℤ
  pub failure_code : String
  pub already_executed : Bool

-- What becomes of a request: the database, how many times the ports' action was started, and the
-- answer or the error.
pub data Answer : Type 0 where
  answered : ExecuteResponse → Answer
  rejected : InvalidRequest → Answer
  not_found aborted cancelled port_failed load_failed : Answer

pub record Executed (F : Type 0) : Type 0 where
  pub db : Db F
  pub runs : ℕ
  pub answer : Answer

-- 500 milliseconds.
abbrev pub await_budget : ℕ
await_budget = 500_000_000

-- The claim marker is the unspecified outcome; a name the enum does not have reads as unspecified,
-- but only after the test for the marker.
abbrev pub is_marker : Outcome → Bool
is_marker Outcome.unspecified = true
is_marker _ = false

abbrev pub read_outcome : Outcome → Outcome
read_outcome (Outcome.unrecognized n) = Outcome.unspecified
read_outcome o = o

abbrev pub replayed : Recorded → Answer
replayed r = Answer.answered (record {
  outcome = r.outcome;
  cost_paise = r.cost_paise;
  failure_code = r.failure_code;
  already_executed = true;
})

-- What a call meets: the new row's id, the time of its claim, and what a wait would see: the clock
-- at its start, and the table and the clock at each poll.
pub record Call (F : Type 0) : Type 0 where
  pub new : Uuid
  pub now : Time
  pub waits_from : Time
  pub seen : ℕ → Db F
  pub clock : ℕ → Time
  pub polls : ℕ

module _ {F : Type 0} where
  abbrev pub attempt_row : Uuid → Attempt → Time → AttemptRow F
  attempt_row new a now = record {
    id = new;
    record_id = a.record_id;
    attempt_number = a.attempt_number;
    action_type = a.action_type;
    outcome = Outcome.unspecified;
    executed_at = now;
    cost_paise = pos 0;
    message_text = a.message;
    failure_code = "";
  }

  unfoldable pub claim : Uuid → Attempt → Time → Db F → Claim F
  claim new a now db = elim (find_attempt a.record_id a.attempt_number db.attempts) [
    | some row ↦ Claim.taken
    | none ↦ elim (find_record a.record_id db.records) [
      | none ↦ Claim.unknown_record
      | some r ↦
          Claim.claimed (record db { attempts = db.attempts ++ (attempt_row new a now ∷ []) })
    ]
  ]

  -- `UPDATE intervention_attempt SET … WHERE id = …`.
  unfoldable pub fill_outcome : Uuid → PortResult → List (AttemptRow F) → List (AttemptRow F)
  fill_outcome id res [] = []
  fill_outcome id res (r ∷ rs) =
      (if r.id == id
        then record r {
          outcome = res.outcome;
          cost_paise = res.cost_paise;
          failure_code = res.failure_code;
        }
        else r)
      ∷ fill_outcome id res rs

  unfoldable pub record_attempt_outcome : Uuid → PortResult → Db F → Db F
  record_attempt_outcome id res db = record db { attempts = fill_outcome id res db.attempts }

  unfoldable pub load : Uuid → ℕ → Db F → Loaded
  load id n db = elim (find_attempt id n db.attempts) [
    | none ↦ Loaded.missing
    | some r ↦
        if is_marker r.outcome
        then Loaded.unresolved
        else Loaded.resolved (record {
          outcome = read_outcome r.outcome;
          cost_paise = r.cost_paise;
          failure_code = r.failure_code;
        })
  ]

  -- The loop of Await at poll `k`, of what the table is at each poll and of the clock at its test;
  -- the fuel is the polls that the caller's context lasts.
  unfoldable pub await : ℕ → (ℕ → Db F) → (ℕ → Time) → Time → Uuid → ℕ → ℕ → Answer
  await zero seen clock deadline id n k = Answer.cancelled
  await (suc fuel) seen clock deadline id n k =
      let again = await fuel seen clock deadline id n (k + 1) in
      elim (load id n (seen k)) [
        | Loaded.missing ↦ Answer.load_failed
        | Loaded.resolved r ↦ replayed r
        | Loaded.unresolved ↦ if leb deadline (clock k) then Answer.aborted else again
      ]

  abbrev pub port_answer : Uuid → Db F → Option PortResult → Executed F
  port_answer new db none = record { db = db; runs = 1; answer = Answer.port_failed }
  port_answer new db (some res) = record {
    db = record_attempt_outcome new res db;
    runs = 1;
    answer = Answer.answered (record {
      outcome = res.outcome;
      cost_paise = res.cost_paise;
      failure_code = res.failure_code;
      already_executed = false;
    });
  }

  abbrev pub no_run : Db F → Answer → Executed F
  no_run db a = record { db = db; runs = 0; answer = a }

  -- `Execute` behind the check of the request.
  unfoldable pub execute_attempt : Ports → Call F → Attempt → Db F → Executed F
  execute_attempt ports call a db = elim (claim call.new a call.now db) [
    | Claim.unknown_record ↦ no_run db Answer.not_found
    | Claim.taken ↦ no_run db (
        await call.polls call.seen call.clock (call.waits_from + await_budget) a.record_id
          a.attempt_number 0)
    | Claim.claimed db' ↦
        port_answer call.new db' (route ports a.record_id a.action_type a.attempt_number a.message)
  ]

  unfoldable pub execute : Ports → Call F → ExecuteRequest → Db F → Executed F
  unfolding execute_attempt
  execute ports call req db = elim (validate_execute req) [
    | Checked.invalid e ↦ no_run db (Answer.rejected e)
    | Checked.valid a ↦ execute_attempt ports call a db
  ]
