-- ===== src/Store/Queue.antt =====
-- src/store/sqlite-queue.ts: the durable job queue. The table `jobs` is the list of its rows, in
-- the order of insertion. The clock and the UUIDs that a method draws are arguments.
pub mod Calls
pub mod Enqueuing
pub mod Valid
pub mod Invariant
pub mod Lifecycle
pub mod Delivery
pub mod Holding
pub mod Exclusion
pub mod Settling
pub mod Release
pub mod Taking
pub mod Wake
pub mod Backoff
use previewer.Prelude.{
  ℕ, ◌+◌, ◌-◌, ◌*◌, ◌^◌, min, max, String, Bool, true, false, ◌&&◌, ◌||◌, Option, none, some, List,
  [], ◌∷◌, ◌++◌, ltb, leb, ◌==◌, if◌then◌else◌, find, get_or, update_where, select_first,
}
use previewer.Core.Keys.{ReviewKey, same_key}
use previewer.Core.State.{Job, JobSource, JobStatus}

pub record JobRow : Type 0 where
  pub id : ℕ
  pub key : ReviewKey
  pub open key use {repo, pr_number, head_sha}
  pub base_sha : Option String
  pub source : JobSource
  pub status : JobStatus
  pub attempts : ℕ
  pub transient_attempts : ℕ
  pub lease_id : Option ℕ
  pub locked_at : Option ℕ
  pub visible_at : ℕ
  pub created_at : ℕ
  pub full_review : Bool

abbrev pub Jobs : Type 0
Jobs = List JobRow

pub record QueueOptions : Type 0 where
  pub max_attempts : ℕ
  pub transient_base_ms : ℕ
  pub transient_cap_ms : ℕ

abbrev pub default_options : QueueOptions
default_options = record {
  max_attempts = 5;
  transient_base_ms = 60_000;
  transient_cap_ms = 1_800_000;
}

unfoldable pub row_to_job : JobRow → Job
row_to_job r = record {
  id = r.id;
  key = r.key;
  base_sha = r.base_sha;
  full = r.full_review;
  source = r.source;
  status = r.status;
  attempts = r.attempts;
  locked_at = r.locked_at;
  created_at = r.created_at;
}

pub record MakeJobInput : Type 0 where
  pub repo : String
  pub pr_number : ℕ
  pub head_sha : String
  pub source : JobSource
  pub base_sha : Option String
  pub full : Option Bool

-- `makeJob`, with the UUID and the time that it draws
unfoldable pub make_job : ℕ → ℕ → MakeJobInput → Job
make_job uuid now input = record {
  id = uuid;
  key = record { repo = input.repo; pr_number = input.pr_number; head_sha = input.head_sha };
  base_sha = input.base_sha;
  full = get_or input.full false;
  source = input.source;
  status = JobStatus.queued;
  attempts = 0;
  locked_at = none;
  created_at = now;
}

-- The tests of the statements' WHERE clauses.
abbrev pub has_key : ReviewKey → JobRow → Bool
has_key k r = same_key r.key k

abbrev pub has_id : ℕ → JobRow → Bool
has_id i r = r.id == i

abbrev same_lease : Option ℕ → ℕ → Bool
same_lease none l = false
same_lease (some m) l = m == l

abbrev pub holds_lease : ℕ → JobRow → Bool
holds_lease l r = same_lease r.lease_id l

-- `status IN ('queued','running')`
abbrev pub is_open : JobStatus → Bool
is_open JobStatus.queued = true
is_open JobStatus.running = true
is_open _ = false

unfoldable pub is_leasable : ℕ → JobRow → Bool
is_leasable now r = is_open r.status && leb r.visible_at now

-- `ORDER BY created_at ASC, id ASC`
unfoldable pub older : JobRow → JobRow → Bool
older a b = ltb a.created_at b.created_at || (a.created_at == b.created_at && ltb a.id b.id)

pub data Enqueued : Type 0 where
  enqueued duplicate requeued : Enqueued

new_row : ℕ → Job → JobRow
new_row now job = record {
  id = job.id;
  key = job.key;
  base_sha = job.base_sha;
  source = job.source;
  status = JobStatus.queued;
  attempts = 0;
  transient_attempts = 0;
  lease_id = none;
  locked_at = none;
  visible_at = now;
  created_at = job.created_at;
  full_review = job.full;
}

requeue_row : ℕ → Job → JobRow → JobRow
requeue_row now job r = record r {
  status = JobStatus.queued;
  attempts = 0;
  transient_attempts = 0;
  lease_id = none;
  locked_at = none;
  visible_at = now;
  source = job.source;
  full_review = job.full;
}

-- `enqueue`. The insert does nothing where a row has the key; with `force` that row is reset.
unfoldable pub enqueue : ℕ → Bool → Job → Jobs → Jobs × Enqueued
unfolding new_row requeue_row
enqueue now force job jobs = elim (find (has_key job.key) jobs) [
  | none ↦ (jobs ++ new_row now job ∷ [], enqueued)
  | some _ ↦
      if force
      then (update_where (has_key job.key) (requeue_row now job) jobs, requeued)
      else (jobs, duplicate)
]

pub record LeasedJob : Type 0 where
  pub job : Job
  pub open job use *
  pub lease_id : ℕ

lease_row : ℕ → ℕ → ℕ → JobRow → JobRow
lease_row uuid now timeout r = record r {
  status = JobStatus.running;
  lease_id = some uuid;
  locked_at = some now;
  visible_at = now + timeout;
  attempts = r.attempts + 1;
}

leased_job : ℕ → ℕ → JobRow → LeasedJob
unfolding row_to_job
leased_job uuid now r = record {
  job = record (row_to_job r) {
    status = JobStatus.running;
    attempts = r.attempts + 1;
    locked_at = some now;
  };
  lease_id = uuid;
}

-- The row that `lease` picks: the oldest job that is open and whose window has passed.
unfoldable pub next_row : ℕ → Jobs → Option JobRow
next_row now = select_first (is_leasable now) older

-- `lease`, with the lease's UUID and the time
unfoldable pub lease : ℕ → ℕ → ℕ → Jobs → Jobs × Option LeasedJob
unfolding lease_row leased_job next_row
lease uuid now timeout jobs = elim (next_row now jobs) [
  | none ↦ (jobs, none)
  | some r ↦
      (update_where (has_id r.id) (lease_row uuid now timeout) jobs, some (leased_job uuid now r))
]

ack_row : JobRow → JobRow
ack_row r = record r { status = JobStatus.done; lease_id = none; locked_at = none }

-- `ack`
unfoldable pub ack : ℕ → Jobs → Jobs
unfolding ack_row
ack lease = update_where (holds_lease lease) ack_row

bury_row : JobRow → JobRow
bury_row r = record r { status = JobStatus.dead_letter; lease_id = none; locked_at = none }

retry_row : ℕ → JobRow → JobRow
retry_row at r = record r {
  status = JobStatus.queued;
  lease_id = none;
  locked_at = none;
  visible_at = at;
}

-- `nack`; `override` is its option `maxAttempts`
unfoldable pub nack : QueueOptions → ℕ → Option ℕ → ℕ → ℕ → Jobs → Jobs
unfolding bury_row retry_row
nack opts now override lease retry_in jobs = elim (find (holds_lease lease) jobs) [
  | none ↦ jobs
  | some r ↦
      if leb (get_or override opts.max_attempts) r.attempts
      then update_where (has_id r.id) bury_row jobs
      else update_where (has_id r.id) (retry_row (now + retry_in)) jobs
]

-- `transientBackoffMs`
unfoldable pub transient_backoff_ms : QueueOptions → ℕ → ℕ
transient_backoff_ms opts n = min (opts.transient_base_ms * 2 ^ max 0 (n - 1)) opts.transient_cap_ms

back_off_row : ℕ → ℕ → ℕ → JobRow → JobRow
back_off_row at attempts transient r = record r {
  status = JobStatus.queued;
  lease_id = none;
  locked_at = none;
  visible_at = at;
  attempts = attempts;
  transient_attempts = transient;
}

-- `nackTransient`
unfoldable pub nack_transient : QueueOptions → ℕ → ℕ → Jobs → Jobs
unfolding back_off_row
nack_transient opts now lease jobs = elim (find (holds_lease lease) jobs) [
  | none ↦ jobs
  | some r ↦
      let transient = r.transient_attempts + 1 in
      let at = now + transient_backoff_ms opts transient in
      update_where (has_id r.id) (back_off_row at (max 0 (r.attempts - 1)) transient) jobs
]

pending : ℕ → JobRow → Bool
pending now r = is_open r.status && ltb now r.visible_at

sooner : JobRow → JobRow → Bool
sooner a b = ltb a.visible_at b.visible_at

-- `nextVisibleAt`: `SELECT MIN(visible_at)` of the open jobs whose window has not passed
unfoldable pub next_visible_at : ℕ → Jobs → Option ℕ
unfolding pending sooner
next_visible_at now jobs = elim (select_first (pending now) sooner jobs) [
  | none ↦ none
  | some r ↦ some r.visible_at
]

-- `getByKey`
unfoldable pub get_by_key : ReviewKey → Jobs → Option Job
get_by_key k jobs = elim (find (has_key k) jobs) [ none ↦ none | some r ↦ some (row_to_job r) ]
