-- ===== src/Jobs/Store/Valid.antt =====
-- When the tables of jobs and messages are valid: the checks of migrations/0001_initial.sql, and what src/worker/jobs/repository.ts adds to them. The checks on the order of times are left out.
pub mod Updates
pub mod States
pub mod Outbox
pub mod Recover
pub mod Refreshes
pub mod Changes
use mathlib.Core.List.{Memᴰ}
use larafeed.Prelude.{ℕ, ◌≤◌, ◌≡◌, true, List, map, String}
use larafeed.Jobs.Store.Tables.{
  JobRow, OutboxRow, Db, is_refresh, is_running, is_terminal, is_leased, is_sent,
}
use larafeed.Jobs.Store.Create.{is_some}
use larafeed.Jobs.Store.Recover.{job_id_of}
use larafeed.Jobs.Store.Outbox.{id_of}
use larafeed.Jobs.Store.Sql.Keys.{Distinct}

pub record IsValidJob (j : JobRow) : Type 0 where
  pub tried : j.attempt_count ≤ j.max_attempts
  pub owner : is_some j.lease_owner ≡ is_running j.state
  pub expiry : is_some j.lease_expires_at ≡ is_running j.state
  pub completion : is_some j.completed_at ≡ is_terminal j.state

pub record IsValidMessage (o : OutboxRow) : Type 0 where
  pub owner : is_some o.lease_owner ≡ is_leased o.state
  pub expiry : is_some o.lease_expires_at ≡ is_leased o.state
  pub sending : is_some o.sent_at ≡ is_sent o.state

abbrev pub operation_of : JobRow → String
operation_of j = j.operation_id

abbrev pub owner_of : OutboxRow → ℕ
owner_of o = o.job_id

abbrev pub Runs : JobRow → Type 0
Runs j = (is_refresh j.kind ≡ true) × (is_running j.state ≡ true)

-- A feed has at most one refresh that runs.
abbrev pub OneRuns : List JobRow → Type 0
OneRuns jobs =
    (j k : JobRow)
    → Memᴰ j jobs
    → Memᴰ k jobs
    → Runs j
    → Runs k
    → j.feed_id ≡ k.feed_id
    → j.id ≡ k.id

pub record Valid (jobs : List JobRow) (outbox : List OutboxRow) : Type 0 where
  pub rows : (j : JobRow) → Memᴰ j jobs → IsValidJob j
  pub messages : (o : OutboxRow) → Memᴰ o outbox → IsValidMessage o
  pub ids : Distinct (map job_id_of jobs)
  pub operations : Distinct (map operation_of jobs)
  pub message_ids : Distinct (map id_of outbox)
  pub owners : Distinct (map owner_of outbox)
  pub owned : (o : OutboxRow) → Memᴰ o outbox → Memᴰ o.job_id (map job_id_of jobs)
  pub alone : OneRuns jobs

abbrev pub IsValid : Db → Type 0
IsValid db = Valid db.jobs db.outbox
