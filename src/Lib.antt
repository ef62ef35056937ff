-- ===== src/Lib.antt =====
-- Momotaro: recovery of failed payments. A raw event becomes a record with a state; a classification
-- names the cause; hard guardrails remove actions; deterministic economics picks the best one left;
-- a scheduler claims what is due and has it executed; delayed reports end a nudge; and an audit
-- service checks that every change of state was written down. This library models how events enter
-- (services/ingestion), the consumer's commits (internal/platform/kafkax), the Classifier with its
-- chain of providers (services/classifier), the Decision Engine (services/decision-engine), the
-- Executor (services/executor) and the verifier of the Audit service (services/audit).
--
-- Which file models what:
--   Proto             the enumerations of proto/common/v1/common.proto
--   Platform/Time, Platform/Calendar   Go's time.Time and time.Duration: nanoseconds since year 1, and
--                     the proleptic Gregorian calendar that schedule.go asks for days and months
--   Platform/Float    float64 as an interface, with the IEEE laws of comparisons as a record of laws
--   Platform/HopCodec   internal/platform/hopcodec: provider hops as one stored text
--   Platform/Commits    internal/platform/kafkax/keyed.go: the commit tracker and runCommitter
--   Ingestion         services/ingestion/internal/server: validate.go, record.go, events.go, store.go
--   Ingestion/Submit, Ingestion/Listing   ingestOne, SubmitEvent, SubmitBatch; and ListBatches
--   Classifier        services/classifier/internal/provider: provider.go, validate.go, budget.go
--   Classifier/Taxonomy, Classifier/Rules   .../internal/rules: buckets.go; actions.go, rationale.go
--                     and rules.go
--   Classifier/Chain, Classifier/Breaker   .../internal/provider/chain.go and breaker.go
--   Classifier/Nudge  .../internal/provider: validate_nudge.go, nudge.go, nudge_breaker.go; and
--                     .../internal/rules/nudge_templates.go
--   Classifier/Server   services/classifier/internal/server/server.go
--   Database          the tables of migrations/ as lists of rows, and the statements run on them
--   Decision/Guardrails  services/decision-engine/internal/engine/guardrails.go
--   Decision/Economics   services/decision-engine/internal/economics/score.go
--   Decision/Routing     .../engine/state.go: scoreAndRoute and the paths through the state machine
--   Decision/Schedule    .../engine/schedule.go and dueAtFor of state.go
--   Decision/Store       .../engine/store.go: Writes (scheduleNew, recordOutcome, recordRescore,
--                     applyResumedOutcome), Claim (claimDue, loadNudged), Reads (loadAttemptHistory,
--                     loadDowntimeStatus, recordDowntimeEvent)
--   Decision/Engine      .../engine/engine.go: HandleMessage and decide
--   Decision/Budget      .../engine/llm_budget.go, and classify of clients.go
--   Decision/Scheduler   .../engine/scheduler.go: process, handleFailedAttempt, ResumeNudge, tick
--   Decision/Server      services/decision-engine/internal/server/server.go: the two reports
--   Decision/System      the transactions of all of them as steps on one database with claims in flight
--   Audit             services/audit/internal/server/statemachine.go and verify.go
--   Audit/Store       services/audit/internal/server/store.go and server.go
--   Audit/Watch       services/audit/internal/server/watch.go: one round of the watcher
--   Executor             services/executor/internal/server/validate.go and ports/route.go
--   Executor/Attempts    services/executor/internal/attempt, and Execute of server/server.go
--   Executor/Stubs    services/executor/internal/ports/cost.go and stub.go
--   Scenarios         concrete inputs and tests
--
-- How the state corresponds: a Db holds the rows of record, record_state, audit_entry,
-- intervention_attempt and payment_downtime. A transaction is a function to a result: an error leaves
-- the database as it was. The table of audit rows keeps the order of their writes, which is the order
-- of their ids; the Audit service's reads sort it by time. A row that another transaction has locked
-- is a parameter of the claim (SKIP LOCKED). ResumeNudge reads its clock first and the database three
-- times before its transaction, and the model takes the database at each of these. The Classifier's
-- and the Executor's answers are functions of the attempt. Reasons are data with their arguments in place of formatted texts.
--
-- A rung of the Classifier's chain is a function on a world, in which the clock and the breakers stand,
-- so that time passes and other requests act while it is called. Texts of the Classifier and of
-- Ingestion are lists of bytes, taken as ASCII; UUIDs are a supply of numbers, and the broker says which
-- events it accepts.
--
-- Bounds and fuel: amounts and durations are int64 in two's complement, written out where they are
-- added (wrap64) or measured (saturate64); counts are natural numbers. The walk over years has fuel
-- for one era of 400 years, after which the calendar repeats. The retries of a call have the code's
-- own bound of three. A wait for an attempt has the polls that the caller's context lasts as fuel; a
-- clock that reaches the deadline within them ends it.
-- The loop of a commit has the waiting records as fuel, one of which goes in each round; a decimal has
-- fuel for twenty digits, where an int64 has nineteen at most.
--
-- Not modelled: JSON, Kafka's client, SQL errors and timeouts, logging and metrics (but for the
-- Classifier's two counters of fallbacks), the column of provider hops in an audit entry, the time at
-- which a pending answer is expected, the attempt rows handed to the Classifier, the clients of the
-- language models and the parsing of their replies, the loading of the economics tables, the poll loops, timers
-- and worker channels, and the services beside these (reporting, the API
-- gateway, the simulators), which are parameters or absent.
pub mod Audit
pub mod Classifier
pub mod Database
pub mod Decision
pub mod Executor
pub mod Ingestion
pub mod Platform
pub mod Prelude
pub mod Proto
pub mod Scenarios
