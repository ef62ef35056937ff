-- ===== src/Decision/Store.antt =====
-- services/decision-engine/internal/engine/store.go: the statements on RECORD_STATE and
-- AUDIT_ENTRY, each a transaction that leaves the tables alone on an error, and the reads. A
-- dropped connection is an input, not modelled here: Engine.antt and Scheduler.antt decide on it.
-- The column `provider_hops` is left out, and a log line on a failed encoding.
pub mod Writes
pub mod Claim
pub mod Reads
pub mod Trails
