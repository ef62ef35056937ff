-- ===== src/Decision.antt =====
-- The Decision Engine, services/decision-engine/internal.
pub mod Guardrails
pub mod Routing
pub mod Schedule
pub mod Store
pub mod Engine
pub mod Budget
pub mod Scheduler
pub mod Server
pub mod System
pub mod Economics
