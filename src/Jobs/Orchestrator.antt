-- ===== src/Jobs/Orchestrator.antt =====
-- The orchestrator of feed refresh jobs (`makeJobOrchestrator` of
-- src/worker/jobs/orchestration.ts). Its repository, queue, processor, clock and generators are what
-- the source takes as dependencies; `W` is all that they can see and change. The records of handled
-- failures for telemetry are left out.
pub mod Accounts
pub mod Admission
pub mod Asks
pub mod Reserving
use larafeed.Prelude.{
  ℕ, zero, suc, ◌+◌, ◌/◌, ◌%◌, Bool, true, false, Option, none, some, List, [], ◌∷◌, ◌++◌, ltb,
  if◌then◌else◌, length, get_or, String,
}
use Prim.Native.String.{◌++◌ as ◌⊕◌}
use larafeed.Effect.{Cause, error, other, returned, threw, Io, pure, ◌>>=◌, attempt}
use larafeed.Jobs.Errors.{decimal, cooldown_error, active_error, invariant_error}
use larafeed.Jobs.Types.{
  max_due_feeds, max_outbox_messages, manual_refresh_cooldown_ms, RefreshTrigger, manual, scheduled,
  RefreshJob, CreateResult, created, idempotent, active, cooldown, gone, DueFeed, LeasedMessage,
  FeedInput, ProcessorResult, JobRepository,
}
use larafeed.Jobs.Decision.{limit, retry_backoff_ms}

-- `Date.now` does not throw. `schedule_favicon` is optional.
pub record Dependencies (W Entry : Type 0) : Type 0 where
  pub repository : JobRepository W Entry
  pub send : String → Io W (Unit {0})
  pub processor : FeedInput → Io W (ProcessorResult Entry)
  pub schedule_favicon : Option (ℕ → Io W (Unit {0}))
  pub clock : W → ℕ × W
  pub generate_id : Io W ℕ
  pub generate_token : Io W String
  pub job_lease_ms : ℕ
  pub outbox_lease_ms : ℕ
  pub max_attempts : ℕ

pub record DispatchResult : Type 0 where
  pub leased : ℕ
  pub sent : ℕ
  pub released : ℕ
  pub ambiguous : ℕ

pub record ManualRefresh : Type 0 where
  pub operation_id : String
  pub created : Bool
  pub job : RefreshJob

pub record Reserved : Type 0 where
  pub reserved : ℕ
  pub operations : List String

pub record CronInput : Type 0 where
  pub reserve : Option Bool
  pub dispatch : Option Bool
  pub due_limit : Option ℕ
  pub dispatch_limit : Option ℕ
  pub stale_lease_limit : Option ℕ
  pub redrive_limit : Option ℕ
  pub cleanup_limit : Option ℕ
  pub job_cleanup_limit : Option ℕ

pub record CronResult : Type 0 where
  pub recovered_jobs : ℕ
  pub redriven_jobs : ℕ
  pub dead_lettered_jobs : ℕ
  pub reserved_jobs : ℕ
  pub dispatched : DispatchResult
  pub refresh_history_deleted : ℕ
  pub terminal_jobs_deleted : ℕ

module _ {W Entry : Type 0} (deps : Dependencies W Entry) where
  abbrev pub now : Io W ℕ
  now w = let (t, w') = deps.clock w in (returned t, w')

  abbrev pub create_job : ℕ → String → RefreshTrigger → ℕ → ℕ → Io W CreateResult
  create_job feed_id operation_id trigger current_time manual_cooldown_ms =
      deps.generate_id >>= λ job_id. deps.generate_id >>= λ outbox_id.
      deps.repository.create_refresh_job (record {
        job_id = job_id;
        outbox_id = outbox_id;
        operation_id = operation_id;
        feed_id = feed_id;
        trigger = trigger;
        max_attempts = deps.max_attempts;
        now = current_time;
        manual_cooldown_ms = manual_cooldown_ms;
      })

  -- a generated name with its prefix, where the caller gives none
  abbrev pub named : Option String → String → Io W String
  named (some name) prefix = pure name
  named none prefix = deps.generate_token >>= λ token. pure (prefix ⊕ token)

  abbrev pub throw : {A : Type 0} → Cause → Io W A
  throw cause w = (threw cause, w)

  abbrev admitted : Bool → RefreshJob → ManualRefresh
  admitted fresh job = record { operation_id = job.operation_id; created = fresh; job = job }

  -- the cases of `manualRefresh` on the repository's answer
  abbrev pub admit : ℕ → Bool → CreateResult → Io W ManualRefresh
  admit feed_id strict (cooldown retry_at) = throw (cooldown_error feed_id retry_at)
  admit feed_id true (active job) = throw (active_error feed_id)
  admit feed_id false (active job) = pure (admitted false job)
  admit feed_id strict gone =
      throw (invariant_error "manualRefresh" "manual admission rejected a gone feed")
  admit feed_id strict (created job) = pure (admitted true job)
  admit feed_id strict (idempotent job) = pure (admitted false job)

  unfoldable pub manual_refresh : ℕ → Option String → Bool → Io W ManualRefresh
  manual_refresh feed_id requested strict =
      named requested "feed-refresh:manual:" >>= λ operation_id. now >>= λ current_time.
      create_job feed_id operation_id manual current_time
        (if strict then manual_refresh_cooldown_ms else 0)
      >>= λ result. admit feed_id strict result

  abbrev pub create_manual_refresh : ℕ → Option String → Io W ManualRefresh
  create_manual_refresh feed_id requested = manual_refresh feed_id requested false

  abbrev pub request_manual_refresh : ℕ → Option String → Io W ManualRefresh
  request_manual_refresh feed_id requested = manual_refresh feed_id requested true

  -- what the loop over the due feeds does with one answer
  abbrev pub count_reserved : Reserved → CreateResult → Reserved
  count_reserved r gone = r
  count_reserved r (cooldown retry_at) = r
  count_reserved r (created job) = record {
    reserved = r.reserved + 1;
    operations = r.operations ++ job.operation_id ∷ [];
  }
  count_reserved r (idempotent job) = record {
    reserved = r.reserved;
    operations = r.operations ++ job.operation_id ∷ [];
  }
  count_reserved r (active job) = record {
    reserved = r.reserved;
    operations = r.operations ++ job.operation_id ∷ [];
  }

  abbrev pub scheduled_id : DueFeed → String
  scheduled_id feed =
      "feed-refresh:scheduled:" ⊕ decimal feed.id ⊕ ":" ⊕ decimal feed.next_refresh_at

  unfoldable pub reserve_each : ℕ → List DueFeed → Reserved → Io W Reserved
  reserve_each current_time [] r = pure r
  reserve_each current_time (feed ∷ feeds) r =
      create_job feed.id (scheduled_id feed) scheduled current_time 0 >>= λ result.
      reserve_each current_time feeds (count_reserved r result)

  unfoldable pub reserve_due_refreshes : Option ℕ → Io W Reserved
  unfolding reserve_each
  reserve_due_refreshes requested_limit = now >>= λ current_time.
      deps.repository.list_due_feeds current_time (limit requested_limit max_due_feeds) >>= λ feeds.
      reserve_each current_time feeds (record { reserved = 0; operations = [] })

  abbrev cause_class : Cause → String
  cause_class (error name message numbers) = name
  cause_class other = "queue_send_error"

  abbrev cause_message : Cause → String
  cause_message (error name message numbers) = message
  cause_message other = "Queue send failed"

  -- the `catch` of a failed send
  abbrev pub release_unsent : ℕ → LeasedMessage → Cause → Io W (Unit {0})
  release_unsent current_time message cause = deps.repository.release_outbox (record {
    target = message;
    now = current_time;
    available_at = current_time + retry_backoff_ms (message.attempt_count + 1);
    error_class = cause_class cause;
    error_message = cause_message cause;
  })

  abbrev one_sent : DispatchResult → DispatchResult
  one_sent r = record r { sent = r.sent + 1 }

  abbrev one_released : DispatchResult → DispatchResult
  one_released r = record r { released = r.released + 1 }

  abbrev one_ambiguous : DispatchResult → DispatchResult
  one_ambiguous r = record r { ambiguous = r.ambiguous + 1 }

  -- one round of the loop over the leased messages
  unfoldable pub dispatch_message : ℕ → LeasedMessage → DispatchResult → Io W DispatchResult
  dispatch_message current_time message r = attempt (deps.send message.operation_id) >>= elim [
    | threw cause ↦ release_unsent current_time message cause >>= λ _. pure (one_released r)
    | returned _ ↦
        attempt (deps.repository.mark_dispatched message current_time)
        >>= elim [ returned _ ↦ pure (one_sent r) | threw _ ↦ pure (one_ambiguous r) ]
  ]

  unfoldable pub dispatch_each : ℕ → List LeasedMessage → DispatchResult → Io W DispatchResult
  unfolding dispatch_message
  dispatch_each current_time [] r = pure r
  dispatch_each current_time (message ∷ messages) r =
      dispatch_message current_time message r >>= λ r'. dispatch_each current_time messages r'

  unfoldable pub dispatch_outbox : Option ℕ → Option String → Io W DispatchResult
  unfolding dispatch_each
  dispatch_outbox requested_limit operation_id = now >>= λ current_time.
      named none "outbox:" >>= λ owner.
      deps.repository.lease_outbox (record {
        owner = owner;
        now = current_time;
        lease_ms = deps.outbox_lease_ms;
        limit = limit requested_limit max_outbox_messages;
        operation_id = operation_id;
      })
      >>= λ leased.
          dispatch_each current_time leased
            (record { leased = length leased; sent = 0; released = 0; ambiguous = 0 })

  abbrev pub dispatch_operation : String → Io W DispatchResult
  unfolding dispatch_outbox
  dispatch_operation operation_id = dispatch_outbox (some 1) (some operation_id)
