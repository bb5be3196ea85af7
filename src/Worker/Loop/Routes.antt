-- ===== src/Worker/Loop/Routes.antt =====
-- How a leased job is settled after its review, on every branch.
use previewer.Prelude.{
  ℕ, String, ◌+◌, ◌-◌, ◌≡◌, refl, true, false, none, some, ==_iff, if◌then◌else◌, find, get_or, leb,
}
use previewer.Core.State.{JobStatus}
use previewer.Store.Queue.{
  JobRow, Jobs, QueueOptions, LeasedJob, has_id, holds_lease, transient_backoff_ms,
}
use previewer.Store.Queue.Valid.{IsValid}
use previewer.Core.Failure.{
  thrown_text, FailureClass, transient, permanent, unknown, classify_failure, is_config_error,
}
use previewer.Store.Queue.Settling.{Settles, ack_finishes, nack_budget, nack_transient_requeues}
use previewer.Worker.Outcome.{ReviewRequest, PipelineOutcome, Ran, returned, threw}
use previewer.Worker.Loop.{
  DrainOptions, retry_delay_of, default_unknown_max_attempts, settle_class, settle_failure,
  request_of, settle, process_leased,
}

-- The row of a job whose failure is of the class, against the budget of its class.
abbrev failed_row : QueueOptions → DrainOptions → ℕ → FailureClass → JobRow → JobRow
failed_row queue opts now transient r = record r {
  status = JobStatus.queued;
  lease_id = none;
  locked_at = none;
  visible_at = now + transient_backoff_ms queue (r.transient_attempts + 1);
  attempts = r.attempts - 1;
  transient_attempts = r.transient_attempts + 1;
}
failed_row queue opts now unknown r =
    if leb (get_or opts.unknown_max_attempts default_unknown_max_attempts) r.attempts
    then record r { status = JobStatus.dead_letter; lease_id = none; locked_at = none }
    else record r {
      status = JobStatus.queued;
      lease_id = none;
      locked_at = none;
      visible_at = now + retry_delay_of opts;
    }
failed_row queue opts now permanent r =
    if leb queue.max_attempts r.attempts
    then record r { status = JobStatus.dead_letter; lease_id = none; locked_at = none }
    else record r {
      status = JobStatus.queued;
      lease_id = none;
      locked_at = none;
      visible_at = now + retry_delay_of opts;
    }

-- The row of a job after its review.
abbrev pub settled_row : QueueOptions → DrainOptions → ℕ → Ran → JobRow → JobRow
settled_row queue opts now (threw err) r = failed_row queue opts now (classify_failure err) r
settled_row queue opts now (returned (PipelineOutcome.error message true)) r =
    failed_row queue opts now (classify_failure (thrown_text message)) r
settled_row queue opts now (returned _) r = record r {
  status = JobStatus.done;
  lease_id = none;
  locked_at = none;
}

module _ (queue : QueueOptions) (opts : DrainOptions) (now l : ℕ) (jobs : Jobs) (r : JobRow)
    (valid : IsValid jobs) (held : find (holds_lease l) jobs ≡ some r) where
  settle_class-Settles :
      (c : FailureClass)
      → Settles r (failed_row queue opts now c r) jobs (settle_class queue opts now l c jobs)
  unfolding settle_class
  settle_class-Settles transient = nack_transient_requeues queue now l jobs r valid held
  settle_class-Settles unknown = nack_budget queue now l jobs r valid held _ _
  settle_class-Settles permanent = nack_budget queue now l jobs r valid held none _

  settle-Settles :
      (ran : Ran)
      → Settles r (settled_row queue opts now ran r) jobs (settle queue opts now l ran jobs)
  unfolding settle settle_failure
  settle-Settles (threw err) = settle_class-Settles (classify_failure err)
  settle-Settles (returned (PipelineOutcome.error message true)) =
      settle_class-Settles (classify_failure (thrown_text message))
  settle-Settles (returned (PipelineOutcome.error message false)) =
      ack_finishes queue now l jobs r valid held
  settle-Settles (returned (PipelineOutcome.reviewed c)) =
      ack_finishes queue now l jobs r valid held
  settle-Settles (returned PipelineOutcome.dry_run) = ack_finishes queue now l jobs r valid held
  settle-Settles (returned PipelineOutcome.duplicate) = ack_finishes queue now l jobs r valid held
  settle-Settles (returned (PipelineOutcome.skipped why)) =
      ack_finishes queue now l jobs r valid held

-- Whatever the pipeline returns or throws, a leased job is settled in one of four ways: finished, if
-- the outcome is no retriable error; and by the class of the failure otherwise, put back after its
-- back-off with its delivery taken off the count (transient), or put back after the retry delay
-- until the budget of its class is used up and it is buried (permanent and unknown). No other job
-- changes.
pub process_leased-Settles :
    (queue : QueueOptions) (opts : DrainOptions) (out : LeasedJob)
    (run_pipeline : ReviewRequest → Ran) (now : ℕ) (jobs : Jobs) (r : JobRow)
    → IsValid jobs
    → find (holds_lease out.lease_id) jobs ≡ some r
    → Settles r
        (settled_row queue opts now (run_pipeline (request_of out)) r)
        jobs
        (process_leased queue opts out run_pipeline now jobs)
unfolding process_leased
process_leased-Settles queue opts out run_pipeline now jobs r valid held =
    settle-Settles queue opts now out.lease_id jobs r valid held (run_pipeline (request_of out))

classify-config :
    (message : String)
    → is_config_error message ≡ true
    → classify_failure (thrown_text message) ≡ transient
unfolding classify_failure
classify-config message h = rw h refl

-- A review that ends in an error of the operator's own configuration never buries its job, however
-- often it was delivered: the job waits for its back-off with that delivery off the count.
pub config_error_waits :
    (queue : QueueOptions) (opts : DrainOptions) (out : LeasedJob)
    (run_pipeline : ReviewRequest → Ran) (now : ℕ) (jobs : Jobs) (r : JobRow) (message : String)
    → IsValid jobs
    → find (holds_lease out.lease_id) jobs ≡ some r
    → run_pipeline (request_of out) ≡ returned (PipelineOutcome.error message true)
    → is_config_error message ≡ true
    → find (has_id r.id) (process_leased queue opts out run_pipeline now jobs)
      ≡ some (record r {
        status = JobStatus.queued;
        lease_id = none;
        locked_at = none;
        visible_at = now + transient_backoff_ms queue (r.transient_attempts + 1);
        attempts = r.attempts - 1;
        transient_attempts = r.transient_attempts + 1;
      })
config_error_waits queue opts out run_pipeline now jobs r message valid held ran config =
    let mine = (==_iff r.id r.id).1 refl in
    let settled = process_leased-Settles queue opts out run_pipeline now jobs r valid held r.id in
    rw (ran, classify-config message config, mine) at settled
