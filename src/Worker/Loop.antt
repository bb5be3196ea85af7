-- ===== src/Worker/Loop.antt =====
-- src/apps/worker/loop.ts: a leased job is reviewed and settled, until the queue has none to lease.
pub mod Routes
pub mod Drains
use previewer.Prelude.{
  ℕ, suc, ◌+◌, String, Bool, true, false, Option, none, some, List, [], ◌∷◌, get_or, ◌⊎◌, inl, inr,
}
use previewer.Core.Failure.{
  Thrown, thrown_text, FailureClass, transient, permanent, unknown, classify_failure,
}
use previewer.Store.Queue.{Jobs, QueueOptions, LeasedJob, lease, ack, nack, nack_transient}
use previewer.Worker.Outcome.{ReviewRequest, PipelineOutcome, Ran, returned, threw}

pub record DrainOptions : Type 0 where
  pub visibility_timeout_ms : Option ℕ
  pub retry_delay_ms : Option ℕ
  pub unknown_max_attempts : Option ℕ

abbrev pub no_options : DrainOptions
no_options = record {
  visibility_timeout_ms = none;
  retry_delay_ms = none;
  unknown_max_attempts = none;
}

abbrev pub default_unknown_max_attempts : ℕ
default_unknown_max_attempts = 3

abbrev pub timeout_of : DrainOptions → ℕ
timeout_of opts = get_or opts.visibility_timeout_ms 2_100_000

abbrev pub retry_delay_of : DrainOptions → ℕ
retry_delay_of opts = get_or opts.retry_delay_ms 60_000

-- The queue's call for each class of failure.
settle_class : QueueOptions → DrainOptions → ℕ → ℕ → FailureClass → Jobs → Jobs
settle_class queue opts now lease transient jobs = nack_transient queue now lease jobs
settle_class queue opts now lease unknown jobs =
    nack queue now (some (get_or opts.unknown_max_attempts default_unknown_max_attempts)) lease
      (retry_delay_of opts) jobs
settle_class queue opts now lease permanent jobs =
    nack queue now none lease (retry_delay_of opts) jobs

-- `settleFailure`; the journal of an unclassified failure is left out.
unfoldable pub settle_failure : QueueOptions → DrainOptions → ℕ → ℕ → Thrown → Jobs → Jobs
unfolding settle_class
settle_failure queue opts now lease err jobs =
    settle_class queue opts now lease (classify_failure err) jobs

-- The request that a leased job makes of the pipeline.
unfoldable pub request_of : LeasedJob → ReviewRequest
request_of l = record {
  repo = l.repo;
  pr_number = l.pr_number;
  dry_run = false;
  force = l.full;
  runner = none;
  model = none;
  reasoning_effort = none;
  full = l.full;
}

settle : QueueOptions → DrainOptions → ℕ → ℕ → Ran → Jobs → Jobs
settle queue opts now lease (threw err) jobs = settle_failure queue opts now lease err jobs
settle queue opts now lease (returned (PipelineOutcome.error message true)) jobs =
    settle_failure queue opts now lease (thrown_text message) jobs
settle queue opts now lease (returned _) jobs = ack lease jobs

-- `processLeased`, with what the pipeline returns or throws and the time at which it does
unfoldable pub process_leased :
    QueueOptions → DrainOptions → LeasedJob → (ReviewRequest → Ran) → ℕ → Jobs → Jobs
unfolding settle
process_leased queue opts l run_pipeline now jobs =
    settle queue opts now l.lease_id (run_pipeline (request_of l)) jobs

-- One round of the drain, as the environment runs it: the time and the UUID of the lease, the
-- dependencies that `makeDeps` returns or throws for a repository (a pipeline, with the outcome of
-- each request), and the time at which the job is settled.
pub record Round : Type 0 where
  pub leased_at : ℕ
  pub uuid : ℕ
  pub make_deps : String → Thrown ⊎ (ReviewRequest → Ran)
  pub settled_at : ℕ

run_job : QueueOptions → DrainOptions → ℕ → LeasedJob → Thrown ⊎ (ReviewRequest → Ran) → Jobs → Jobs
run_job queue opts now l (inl err) jobs = settle_failure queue opts now l.lease_id err jobs
run_job queue opts now l (inr run_pipeline) jobs = process_leased queue opts l run_pipeline now jobs

-- The body of the drain's loop: `none` is its `break`.
unfoldable pub drain_round : QueueOptions → DrainOptions → Round → Jobs → Option Jobs
unfolding run_job
drain_round queue opts r jobs =
    let (leased, out) = lease r.uuid r.leased_at (timeout_of opts) jobs in
    elim out [
      | none ↦ none
      | some l ↦ some (run_job queue opts r.settled_at l (r.make_deps l.repo) leased)
    ]

abbrev count_one : Option (Jobs × ℕ) → Option (Jobs × ℕ)
count_one none = none
count_one (some (jobs, n)) = some (jobs, suc n)

-- `drainQueue` over the rounds that the environment runs: the table and the count of the jobs
-- processed when it ends, or `none` if the rounds end first.
unfoldable pub drain_queue : QueueOptions → DrainOptions → List Round → Jobs → Option (Jobs × ℕ)
drain_queue queue opts [] jobs = none
drain_queue queue opts (r ∷ rs) jobs = elim (drain_round queue opts r jobs) [
  | none ↦ some (jobs, 0)
  | some after ↦ count_one (drain_queue queue opts rs after)
]
