-- ===== src/Reconciler.antt =====
-- `reconcile` of src/apps/reconciler/reconcile.ts: the sweep that finds the heads without a review and
-- queues them. What GitHub lists is a field of `ReconcileDeps`, and so are the times at which the
-- sweep asks and queues, with the UUIDs that it draws.
pub mod Sweep
use previewer.Prelude.{
  ℕ, suc, ◌+◌, String, Bool, true, false, not, ◌&&◌, ◌||◌, ◌⊎◌, inl, inr, Option, none, some, List,
  [], ◌∷◌, ◌++◌, length, if◌then◌else◌,
}
use previewer.Core.Keys.{ReviewKey, review_key}
use previewer.Core.State.{Job, JobSource}
use previewer.Core.Failure.{Thrown}
use previewer.Config.Repo.{RepoConfig}
use previewer.Store.Queue.{Jobs, QueueOptions, Enqueued, enqueue, make_job}
use previewer.Store.Reviews.{Runs, default_stale_ms, is_reviewed_or_in_flight}
use previewer.Worker.Input.{PullRequestMeta}
use previewer.Worker.Loop.{DrainOptions, Round, drain_queue, no_options}

pub record UncoveredPr : Type 0 where
  pub repo : String
  pub pr_number : ℕ
  pub head_sha : String
  pub title : String

pub record ReconcileDeps : Type 0 where
  pub repo_configs : List RepoConfig
  pub list_open_pull_requests : String → Thrown ⊎ List PullRequestMeta
  pub asked_at : ReviewKey → ℕ
  pub queued_at : ReviewKey → ℕ
  pub uuid : ReviewKey → ℕ

pub record ReconcileResult : Type 0 where
  pub repos : ℕ
  pub scanned : ℕ
  pub uncovered : List UncoveredPr
  pub enqueued : ℕ
  pub processed : ℕ

abbrev pub key_of : UncoveredPr → ReviewKey
key_of u = review_key u.repo u.pr_number u.head_sha

-- Is the pull request one that the sweep looks at?
abbrev pub is_scanned : RepoConfig → PullRequestMeta → Bool
is_scanned cfg pr = not pr.is_closed && not (pr.is_draft && cfg.events.ignore_draft)

-- The head has no review, and none that is in flight or cools down.
unfoldable pub is_uncovered : ReconcileDeps → Runs → String → PullRequestMeta → Bool
unfolding is_reviewed_or_in_flight review_key
is_uncovered deps runs repo pr =
    let key = review_key repo pr.number pr.head_sha in
    not (is_reviewed_or_in_flight (deps.asked_at key) key default_stale_ms default_stale_ms runs)

abbrev pub uncovered_pr : String → PullRequestMeta → UncoveredPr
uncovered_pr repo pr = record {
  repo = repo;
  pr_number = pr.number;
  head_sha = pr.head_sha;
  title = pr.title;
}

-- The inner loop: what is scanned, and what of it is uncovered.
unfoldable pub scan_prs :
    ReconcileDeps → Runs → RepoConfig → List PullRequestMeta → ℕ × List UncoveredPr
unfolding is_uncovered
scan_prs deps runs cfg [] = (0, [])
scan_prs deps runs cfg (pr ∷ prs) =
    let (scanned, uncovered) = scan_prs deps runs cfg prs in
    if not (is_scanned cfg pr)
    then (scanned, uncovered)
    else if is_uncovered deps runs cfg.id pr
    then (suc scanned, uncovered_pr cfg.id pr ∷ uncovered)
    else (suc scanned, uncovered)

-- A repository whose list fails is passed over.
unfoldable pub scan_repo :
    ReconcileDeps → Runs → RepoConfig → Thrown ⊎ List PullRequestMeta → ℕ × List UncoveredPr
unfolding scan_prs
scan_repo deps runs cfg (inl err) = (0, [])
scan_repo deps runs cfg (inr prs) = scan_prs deps runs cfg prs

-- The outer loop
unfoldable pub scan_repos : ReconcileDeps → Runs → List RepoConfig → ℕ × List UncoveredPr
unfolding scan_repo
scan_repos deps runs [] = (0, [])
scan_repos deps runs (cfg ∷ cfgs) =
    let (scanned, uncovered) = scan_repo deps runs cfg (deps.list_open_pull_requests cfg.id) in
    let (more, others) = scan_repos deps runs cfgs in (scanned + more, uncovered ++ others)

abbrev count_new : Enqueued → ℕ
count_new Enqueued.enqueued = 1
count_new _ = 0

-- The job of a head
unfoldable pub job_of : ReconcileDeps → UncoveredPr → Job
unfolding make_job review_key
job_of deps u = make_job (deps.uuid (key_of u)) (deps.queued_at (key_of u)) (record {
  repo = u.repo;
  pr_number = u.pr_number;
  head_sha = u.head_sha;
  source = JobSource.reconciler;
  base_sha = none;
  full = none;
})

unfoldable pub queue_one : ReconcileDeps → UncoveredPr → Jobs → Jobs × Enqueued
unfolding enqueue job_of
queue_one deps u jobs = enqueue (deps.queued_at (key_of u)) false (job_of deps u) jobs

-- The loop that queues the uncovered heads: the table, and how many were new.
unfoldable pub queue_uncovered : ReconcileDeps → List UncoveredPr → Jobs → Jobs × ℕ
unfolding queue_one
queue_uncovered deps [] jobs = (jobs, 0)
queue_uncovered deps (u ∷ us) jobs =
    let (next, answer) = queue_one deps u jobs in
    let (after, n) = queue_uncovered deps us next in (after, count_new answer + n)

-- The drain at the end, over the rounds that the environment runs; `none` if they end first.
unfoldable pub drain_after : QueueOptions → Option (List Round) → Jobs → Option (Jobs × ℕ)
unfolding drain_queue
drain_after queue none jobs = some (jobs, 0)
drain_after queue (some rounds) jobs = drain_queue queue no_options rounds jobs

abbrev result_of :
    ℕ → ℕ × List UncoveredPr → ℕ → Option (Jobs × ℕ) → Option (Jobs × ReconcileResult)
result_of repos found enqueued none = none
result_of repos found enqueued (some (jobs, processed)) = some (
  jobs,
  record {
    repos = repos;
    scanned = found.0;
    uncovered = found.1;
    enqueued = enqueued;
    processed = processed;
  },
)

-- `reconcile`; the rounds are those of the drain, or none where `opts.process` is false.
unfoldable pub reconcile :
    QueueOptions
    → ReconcileDeps
    → Bool
    → Option (List Round)
    → Runs
    → Jobs
    → Option (Jobs × ReconcileResult)
unfolding scan_repos queue_uncovered drain_after
reconcile queue deps dry_run rounds runs jobs =
    let found = scan_repos deps runs deps.repo_configs in
    let repos = length deps.repo_configs in
    if dry_run
    then result_of repos found 0 (some (jobs, 0))
    else (let (queued, enqueued) = queue_uncovered deps found.1 jobs in
        result_of repos found enqueued (drain_after queue rounds queued))
