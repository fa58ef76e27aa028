-- ===== src/Jobs.antt =====
-- Feed refresh jobs (src/worker/jobs): their data, and the orchestrator that creates them, sends them
-- to the queue and runs them.
pub mod Types
pub mod Errors
pub mod Store
pub mod Decision
pub mod Orchestrator
pub mod Worker
mod Tests
