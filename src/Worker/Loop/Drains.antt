-- ===== src/Worker/Loop/Drains.antt =====
-- The drain ends, processes each ready job once, and leaves no job that it took in `running`.
use previewer.Prelude.{
  ℕ, ◌+◌, ◌≤◌, ◌<◌, min, ◌≡◌, ◌⊎◌, inl, inr, Bool, true, false, some, List, count_where,
}
use previewer.Store.Queue.{Jobs, QueueOptions, LeasedJob, holds_lease, is_leasable}
use previewer.Store.Queue.Valid.{IsValid}
use previewer.Core.Failure.{Thrown}
use previewer.Worker.Outcome.{ReviewRequest, PipelineOutcome, Ran, returned, threw}
use previewer.Worker.Loop.{DrainOptions, timeout_of, retry_delay_of, request_of, Round, drain_queue}

-- What settles a job for good: an outcome that is no error to retry
abbrev pub ends_job : Ran → Bool
ends_job (threw err) = false
ends_job (returned (PipelineOutcome.error message true)) = false
ends_job (returned _) = true

-- The dependencies, if there are any, run the job to such an outcome.
abbrev pub finishes : LeasedJob → Thrown ⊎ (ReviewRequest → Ran) → Bool
finishes out (inl err) = false
finishes out (inr run_pipeline) = ends_job (run_pipeline (request_of out))

-- A job that the round puts back is not ready again at the time `t`.
abbrev pub Waits : QueueOptions → DrainOptions → ℕ → Round → Type 0
Waits queue opts t r =
    (t < r.settled_at + retry_delay_of opts)
    × (t < r.settled_at + min queue.transient_base_ms queue.transient_cap_ms)

-- The round leases at the time `t` or before, its lease does not run out until then, and a job that it
-- does not finish, but puts back, is not ready again at `t`.
pub record InTime (queue : QueueOptions) (opts : DrainOptions) (t : ℕ) (r : Round) : Type 0 where
  pub leased : r.leased_at ≤ t
  pub held : t < r.leased_at + timeout_of opts
  pub waits : (out : LeasedJob) → finishes out (r.make_deps out.repo) ≡ false → Waits queue opts t r

-- A round that processes a job: one fewer is ready, and no lease is left that was not there.
record Progress (t : ℕ) (jobs after : Jobs) : Type 0 where
  valid : IsValid after
  leases : (l : ℕ) → count_where (holds_lease l) after ≤ count_where (holds_lease l) jobs
  fewer : count_where (is_leasable t) after < count_where (is_leasable t) jobs

-- The drain comes to its end: it breaks off, having processed `processed` jobs.
pub record Drained (queue : QueueOptions) (opts : DrainOptions) (t : ℕ) (rs : List Round)
    (jobs : Jobs) : Type 0 where
  pub after : Jobs
  pub processed : ℕ
  pub result : drain_queue queue opts rs jobs ≡ some (after, processed)
  pub valid : IsValid after
  pub leases : (l : ℕ) → count_where (holds_lease l) after ≤ count_where (holds_lease l) jobs
  pub bounded : processed ≤ count_where (is_leasable t) jobs
