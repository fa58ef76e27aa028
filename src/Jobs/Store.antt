-- ===== src/Jobs/Store.antt =====
-- The repository of feed refresh jobs (src/worker/jobs/repository.ts): its tables, its statements and
-- the operations that run them.
pub mod Sql
pub mod Tables
pub mod Create
pub mod Outbox
pub mod Claim
pub mod Recover
pub mod Cleanup
pub mod Failure
pub mod Valid
pub mod Steps
mod Tests
