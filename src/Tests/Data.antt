-- ===== src/Tests/Data.antt =====
-- A head, its job and the table of the queue, for the examples.
use previewer.Config.Repo.{RepoConfig, RunnerPolicy}
use previewer.Worker.Input.{PullRequestMeta}
use previewer.Prelude.{
  true, count_where, select_first, update_where, false, none, some, List, [], ◌∷◌, refl,
}
use previewer.Core.Keys.{ReviewKey}
use previewer.Core.State.{Job, JobSource, JobStatus}
use previewer.Store.Queue.{JobRow, LeasedJob, default_options, enqueue, lease, is_leasable}
use previewer.Store.Queue.Calls.{Call, enqueues, leases, step, run}
use previewer.Store.Queue.Valid.{IsValid, IsValid-empty}
use previewer.Store.Queue.Invariant.{run-IsValid}

abbrev pub a_head : ReviewKey
a_head = record { repo = "acme/api"; pr_number = 7; head_sha = "abc1234" }

abbrev pub other_head : ReviewKey
other_head = record { repo = "acme/api"; pr_number = 8; head_sha = "def5678" }

abbrev pub a_job : Job
a_job = record {
  id = 11;
  key = a_head;
  base_sha = none;
  full = false;
  source = JobSource.webhook;
  status = JobStatus.queued;
  attempts = 0;
  locked_at = none;
  created_at = 1_000;
}

abbrev pub queued_row : JobRow
queued_row = record {
  id = 11;
  key = a_head;
  base_sha = none;
  source = JobSource.webhook;
  status = JobStatus.queued;
  attempts = 0;
  transient_attempts = 0;
  lease_id = none;
  locked_at = none;
  visible_at = 1_000;
  created_at = 1_000;
  full_review = false;
}

abbrev pub running_row : JobRow
running_row = record queued_row {
  status = JobStatus.running;
  lease_id = some 77;
  locked_at = some 2_000;
  visible_at = 2_500;
  attempts = 1;
}

abbrev pub a_lease : LeasedJob
a_lease = record {
  job = record a_job { status = JobStatus.running; attempts = 1; locked_at = some 2_000 };
  lease_id = 77;
}

abbrev pub a_history : List Call
a_history = enqueues 1_000 false a_job ∷ leases 77 2_000 500 ∷ []

pub queued-IsValid : IsValid (queued_row ∷ [])
unfolding run step enqueue count_where
queued-IsValid =
    run-IsValid default_options (enqueues 1_000 false a_job ∷ []) {jobs = []} (refl, tt)
      IsValid-empty

pub running-IsValid : IsValid (running_row ∷ [])
unfolding run step enqueue lease count_where select_first update_where is_leasable
running-IsValid = run-IsValid default_options a_history {jobs = []} (refl, (refl, tt)) IsValid-empty

abbrev pub b_job : Job
b_job = record a_job { id = 12; key = other_head; created_at = 1_100 }

abbrev pub b_lease : LeasedJob
b_lease = record {
  job = record b_job { status = JobStatus.running; attempts = 1; locked_at = some 2_200 };
  lease_id = 88;
}

abbrev pub a_config : RepoConfig
a_config = record {
  id = "acme/api";
  enabled = true;
  default_branch = "main";
  events = record {
    triggers = "opened" ∷ "synchronize" ∷ [];
    ignore_draft = true;
    ignore_paths = "docs/**" ∷ [];
  };
  review = record {
    incremental = true;
    max_tokens_per_run = 120_000;
    max_patch_chars = 250_000;
    run_tests = false;
  };
  runner = record {
    policy = RunnerPolicy.cost_first;
    profile = none;
    default_runner = "codex-cli";
    model = none;
    reasoning_effort = none;
    overrides = [];
  };
}

abbrev pub a_pull_request : PullRequestMeta
a_pull_request = record {
  number = 7;
  title = "A change";
  body = "";
  base_sha = "000aaaa";
  head_sha = "abc1234";
  author = "dev";
  is_draft = false;
  is_closed = false;
}
