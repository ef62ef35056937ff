-- ===== src/Scenarios/Executions.antt =====
-- The Executor's theorems on one attempt: a retry that the rail declines, asked for twice.
use momotaro.Prelude.{◌+◌, ◌*◌, ◌≤◌, ◌≡◌, ◌≢◌, refl, true, false, none, some, List, [], ◌∷◌, arith}
use momotaro.Prelude.Int.{pos}
use momotaro.Proto.{ActionType, Outcome}
use momotaro.Database.{find_attempt, find_record}
use momotaro.Executor.{Ports, Attempt, ExecuteRequest, route}
use momotaro.Executor.Attempts.{Answer, Executed, Call, execute_attempt, await, await_budget}
use momotaro.Executor.Once.{has_row, runs_of, action-runs_once}
use momotaro.Executor.Replay.{duplicate-same_answer, await-ends}
use momotaro.Scenarios.{Fixed, ingested, record_row, start_time}

abbrev declining : Ports
declining = record {
  simulate_outcome = λ id a n. some (record {
    outcome = Outcome.failure;
    immediate = true;
    resolves_at = 0;
    failure_code = "INSUFFICIENT_FUNDS";
    cost_paise = pos 25;
  });
  simulate_send = λ id c m. some (record { sent = true; cost_paise = pos 14 });
}

abbrev request : ExecuteRequest
request = record {
  record_id = some 7;
  action_type = ActionType.retry;
  attempt_number = pos 1;
  message = "";
}

abbrev attempt : Attempt
attempt = record { record_id = 7; attempt_number = 1; action_type = ActionType.retry; message = "" }

abbrev call : Call Fixed
call = record {
  new = 100;
  now = start_time;
  waits_from = start_time;
  seen = λ k. ingested;
  clock = λ k. start_time + 5_000_000 * k;
  polls = 200;
}

abbrev first : Executed Fixed
first = execute_attempt declining call attempt ingested

abbrev again : Call Fixed
again = record call { new = 101; seen = λ k. first.db }

abbrev calls : List (Ports × Call Fixed × ExecuteRequest)
calls = (declining, call, request) ∷ (declining, again, request) ∷ []

action-runs_once_example :
    (runs_of 7 1 calls ingested ≤ 1)
    × (has_row 7 1 ingested.attempts ≡ true → runs_of 7 1 calls ingested ≡ 0)
action-runs_once_example = action-runs_once 7 1 calls ingested

attempt-new :
    (find_attempt 7 1 ingested.attempts ≡ none) × (find_record 7 ingested.records ≡ some record_row)
unfolding find_attempt find_record
attempt-new = (refl, refl)

declined :
    route declining 7 ActionType.retry 1 ""
    ≡ some (record {
      outcome = Outcome.failure;
      cost_paise = pos 25;
      failure_code = "INSUFFICIENT_FUNDS";
      resolves_at = 0;
    })
unfolding route
declined = refl

duplicate-same_answer_example :
    (first.answer
      ≡ Answer.answered (record {
        outcome = Outcome.failure;
        cost_paise = pos 25;
        failure_code = "INSUFFICIENT_FUNDS";
        already_executed = false;
      }))
    × (execute_attempt declining again attempt first.db ≡ record {
      db = first.db;
      runs = 0;
      answer = Answer.answered (record {
        outcome = Outcome.failure;
        cost_paise = pos 25;
        failure_code = "INSUFFICIENT_FUNDS";
        already_executed = true;
      });
    })
duplicate-same_answer_example =
    duplicate-same_answer declining declining call again attempt ingested record_row
      (record {
        outcome = Outcome.failure;
        cost_paise = pos 25;
        failure_code = "INSUFFICIENT_FUNDS";
        resolves_at = 0;
      })
      199 attempt-new.0 attempt-new.1 declined (refl, refl) tt refl refl

-- Polls of five milliseconds reach the deadline of the wait at the hundredth.
await-ends_example :
    await 101 call.seen call.clock (start_time + await_budget) 7 1 0 ≢ Answer.cancelled
await-ends_example =
    await-ends 100 101 call.seen call.clock (start_time + await_budget) 7 1 0 (omega arith)
      (omega arith)
