-- ===== src/Jobs/Store/Tables.antt =====
-- The tables of the job repository (src/worker/jobs/repository.ts, with the columns of
-- migrations/0001_initial.sql and later). The columns that hold JSON are held as what their JSON stands
-- for. What is left out of `feeds` and `feed_refreshes` is written by commits only.
use Prim.Native.Char.{code}
use Prim.Native.String.{String}
use larafeed.Prelude.{
  ℕ, ◌-◌, ◌*◌, Bool, true, false, not, ◌&&◌, Option, none, some, List, ltb, leb, if◌then◌else◌, min,
  max, str_eq,
}
use larafeed.Jobs.Store.Sql.{at_least}
use larafeed.Filter.Simulation.{is_whitespace_character}
use larafeed.Jobs.Types.{RefreshTrigger, manual, scheduled, JobState, RefreshJob, Claim}

-- `feed_refresh`, or the kind of other jobs
pub data Kind : Type 0 where
  feed_refresh other_kind : Kind

pub record JobRow : Type 0 where
  pub id : ℕ
  pub operation_id : String
  pub kind : Kind
  pub state : JobState
  pub feed_id : ℕ
  pub trigger : RefreshTrigger
  pub attempt_count : ℕ
  pub max_attempts : ℕ
  pub available_at : ℕ
  pub lease_owner : Option String
  pub lease_expires_at : Option ℕ
  pub started_at : Option ℕ
  pub completed_at : Option ℕ
  pub last_error_class : Option String
  pub last_error_message : Option String
  pub created_at : ℕ
  pub updated_at : ℕ

pub data OutboxState : Type 0 where
  pending leased sent dead_lettered : OutboxState

-- `topic` is `feed-refresh`, or that of other messages; the payload is the operation.
pub record OutboxRow : Type 0 where
  pub id : ℕ
  pub job_id : ℕ
  pub topic : Kind
  pub operation_id : String
  pub state : OutboxState
  pub attempt_count : ℕ
  pub available_at : ℕ
  pub lease_owner : Option String
  pub lease_expires_at : Option ℕ
  pub sent_at : Option ℕ
  pub last_error_class : Option String
  pub last_error_message : Option String
  pub created_at : ℕ
  pub updated_at : ℕ

pub record FeedRow : Type 0 where
  pub id : ℕ
  pub is_gone : Bool
  pub next_refresh_at : ℕ
  pub last_attempt_at : Option ℕ
  pub last_successful_refresh_at : Option ℕ
  pub last_failed_refresh_at : Option ℕ
  pub consecutive_failures : ℕ
  pub consecutive_not_found_failures : ℕ
  pub last_error_class : Option String
  pub last_error_message : Option String
  pub updated_at : ℕ

pub record RefreshRow : Type 0 where
  pub id : ℕ
  pub feed_id : ℕ
  pub job_id : Option ℕ
  pub refreshed_at : ℕ
  pub was_successful : Bool
  pub entries_created : ℕ
  pub http_status : Option ℕ
  pub duration_ms : Option ℕ
  pub error_class : Option String
  pub error_message : Option String

-- `chart_daily_refreshes`
pub record DailyRow : Type 0 where
  pub feed_id : ℕ
  pub day_start : ℕ
  pub attempts_count : ℕ
  pub successes_count : ℕ
  pub failures_count : ℕ
  pub entries_created_count : ℕ
  pub updated_at : ℕ

pub record Db : Type 0 where
  pub jobs : List JobRow
  pub outbox : List OutboxRow
  pub feeds : List FeedRow
  pub refreshes : List RefreshRow
  pub daily : List DailyRow

abbrev pub is_refresh : Kind → Bool
is_refresh feed_refresh = true
is_refresh other_kind = false

abbrev pub is_scheduled : RefreshTrigger → Bool
is_scheduled manual = false
is_scheduled scheduled = true

abbrev pub same_trigger : RefreshTrigger → RefreshTrigger → Bool
same_trigger manual manual = true
same_trigger scheduled scheduled = true
same_trigger manual scheduled = false
same_trigger scheduled manual = false

abbrev pub is_running : JobState → Bool
is_running JobState.running = true
is_running JobState.pending = false
is_running JobState.queued = false
is_running JobState.succeeded = false
is_running JobState.failed = false
is_running JobState.dead_lettered = false
is_running JobState.canceled = false

-- `state IN ('succeeded', 'dead_lettered', 'canceled')`
abbrev pub is_terminal : JobState → Bool
is_terminal JobState.succeeded = true
is_terminal JobState.dead_lettered = true
is_terminal JobState.canceled = true
is_terminal JobState.pending = false
is_terminal JobState.queued = false
is_terminal JobState.running = false
is_terminal JobState.failed = false

-- `state IN ('pending', 'queued', 'running', 'failed')`
abbrev pub is_active : JobState → Bool
is_active state = not (is_terminal state)

-- `state IN ('pending', 'queued', 'failed')`
abbrev pub is_claimable : JobState → Bool
is_claimable state = is_active state && not (is_running state)

-- `state IN ('pending', 'failed')`
abbrev pub is_open : JobState → Bool
is_open JobState.pending = true
is_open JobState.failed = true
is_open JobState.queued = false
is_open JobState.running = false
is_open JobState.succeeded = false
is_open JobState.dead_lettered = false
is_open JobState.canceled = false

-- `state IN ('queued', 'failed')`
abbrev pub is_delivered : JobState → Bool
is_delivered JobState.queued = true
is_delivered JobState.failed = true
is_delivered JobState.pending = false
is_delivered JobState.running = false
is_delivered JobState.succeeded = false
is_delivered JobState.dead_lettered = false
is_delivered JobState.canceled = false

abbrev pub is_dead : JobState → Bool
is_dead JobState.dead_lettered = true
is_dead JobState.pending = false
is_dead JobState.queued = false
is_dead JobState.running = false
is_dead JobState.succeeded = false
is_dead JobState.failed = false
is_dead JobState.canceled = false

abbrev pub is_waiting : OutboxState → Bool
is_waiting OutboxState.pending = true
is_waiting OutboxState.leased = false
is_waiting OutboxState.sent = false
is_waiting OutboxState.dead_lettered = false

abbrev pub is_leased : OutboxState → Bool
is_leased OutboxState.leased = true
is_leased OutboxState.pending = false
is_leased OutboxState.sent = false
is_leased OutboxState.dead_lettered = false

abbrev pub is_sent : OutboxState → Bool
is_sent OutboxState.sent = true
is_sent OutboxState.pending = false
is_sent OutboxState.leased = false
is_sent OutboxState.dead_lettered = false

abbrev pub is_abandoned : OutboxState → Bool
is_abandoned OutboxState.dead_lettered = true
is_abandoned OutboxState.pending = false
is_abandoned OutboxState.leased = false
is_abandoned OutboxState.sent = false

-- `column = ?` of a text column, which is not true of NULL
abbrev pub is_text : Option String → String → Bool
is_text none value = false
is_text (some s) value = str_eq s value

trim_start : String → String
trim_start String.[] = String.[]
trim_start (String.◌∷◌ c s) =
    let rest = trim_start s in if is_whitespace_character (code c) then rest else String.◌∷◌ c s

is_blank : String → Bool
is_blank String.[] = true
is_blank (String.◌∷◌ c s) = false

trim_end : String → String
trim_end String.[] = String.[]
trim_end (String.◌∷◌ c s) =
    let rest = trim_end s in
    if is_blank rest && is_whitespace_character (code c) then String.[] else String.◌∷◌ c rest

-- `text.slice(0, n)`: characters beyond U+FFFF count twice; a half of one that the source would keep is
-- dropped
take_units : ℕ → String → String
take_units n String.[] = String.[]
take_units n (String.◌∷◌ c s) =
    let units = if ltb (code c) 65_536 then 1 else 2 in
    let rest = take_units (n - units) s in if leb units n then String.◌∷◌ c rest else String.[]

or_unknown : String → String
or_unknown String.[] = "unknown"
or_unknown (String.◌∷◌ c s) = String.◌∷◌ c s

unfoldable pub bounded_text : String → ℕ → String
unfolding trim_start trim_end is_blank take_units or_unknown is_whitespace_character
bounded_text value maximum = take_units maximum (or_unknown (trim_start (trim_end value)))

abbrev pub max_error_class_length : ℕ
max_error_class_length = 64

abbrev pub max_error_message_length : ℕ
max_error_message_length = 512

abbrev pub max_outbox_attempts : ℕ
max_outbox_attempts = 10

abbrev pub default_refresh_interval_ms : ℕ
default_refresh_interval_ms = 15 * 60_000

unfoldable pub error_class : String → String
unfolding bounded_text
error_class value = bounded_text value max_error_class_length

unfoldable pub error_message : String → String
unfolding bounded_text
error_message value = bounded_text value max_error_message_length

abbrev pub bounded_limit : ℕ → ℕ → ℕ
bounded_limit value maximum = max 1 (min maximum value)

-- `jobFromRow`, on a row whose numbers are in range
abbrev pub job_from_row : JobRow → RefreshJob
job_from_row row = record {
  id = row.id;
  operation_id = row.operation_id;
  feed_id = row.feed_id;
  trigger = row.trigger;
  state = row.state;
  attempt_count = row.attempt_count;
  max_attempts = row.max_attempts;
  available_at = row.available_at;
}

-- the `WHERE` of an operation and its kind
abbrev pub is_operation : String → JobRow → Bool
is_operation operation_id row = str_eq row.operation_id operation_id && is_refresh row.kind

-- `directLeasePredicate`
abbrev pub holds_lease : Claim → ℕ → JobRow → Bool
holds_lease claim now row =
    is_operation claim.operation_id row
    && is_running row.state
    && is_text row.lease_owner claim.lease_owner
    && at_least row.lease_expires_at now
