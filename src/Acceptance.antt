-- ===== src/Acceptance.antt =====
-- The parts of the acceptance framework, internal/db/acceptance/framework, that decide: the campaign, when a
-- crash is injected, what a workload expects, and what a verification accepts.
pub mod Dag
pub mod Dataset
pub mod Crash
pub mod Scheduler
pub mod Verifier
