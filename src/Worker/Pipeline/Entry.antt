-- ===== src/Worker/Pipeline/Entry.antt =====
-- What the pipeline does before it claims anything, and that a dry run claims nothing.
use previewer.Prelude.{
  ℕ, ◌+◌, ◌-◌, ap, find, ◌≡◌, refl, ◌⊎◌, inl, inr, String, Bool, true, false, ◌&&◌, none, some,
  List, [], ◌∷◌, Option-cases, arith, if◌then◌else◌,
}
use previewer.Core.Text.{codes, codes-append, starts_with-append}
use previewer.Core.Failure.{Thrown, is_config_error, config_error_prefix}
use previewer.Core.State.{JobStatus}
use previewer.Store.Queue.{
  JobRow, Jobs, QueueOptions, LeasedJob, holds_lease, has_id, transient_backoff_ms,
}
use previewer.Store.Queue.Valid.{IsValid}
use previewer.Worker.Loop.{DrainOptions, request_of, process_leased}
use previewer.Worker.Loop.Routes.{config_error_waits}
use previewer.Config.Runners.{say, runner_config_problem}
use previewer.Store.Reviews.{Runs}
use previewer.Worker.Outcome.{ReviewRequest, PipelineOutcome, Ran, returned}
use previewer.Worker.Input.{PullRequestMeta}
use previewer.Worker.Policy.{Signals, RunnerSelector, select_runner_selector}
use previewer.Worker.Policy.Selection.{no_problem_selects, selects_registered}
use previewer.Worker.Review.{
  PipelineDeps, Draws, Chosen, choose_runner, selected, chosen_by, get_runner, is_set, attempt,
}
use previewer.Worker.Pipeline.{
  claim_and_review, review_pull_request, config_problem, config_message, review_pipeline,
}
use previewer.Worker.Pipeline.Leaves.{review_claimed-keeps}

module _ (deps : PipelineDeps) (req : ReviewRequest) (draws : Draws) (runs : Runs)
    (dry : req.dry_run ≡ true) where
  if-keeps : (b : Bool) (x y : Runs × Ran) → x.0 ≡ runs → y.0 ≡ runs → (if b then x else y).0 ≡ runs
  if-keeps true x y h k = h
  if-keeps false x y h k = k

  if_true-keeps :
      (b : Bool) (x y : Runs × Ran) → b ≡ true → x.0 ≡ runs → (if b then x else y).0 ≡ runs
  if_true-keeps true x y e h = h
  if_true-keeps false x y e h = absurd (ground (arith, e))

  claim_and_review-keeps :
      (pr : PullRequestMeta) → (claim_and_review deps req pr draws runs).0 ≡ runs
  unfolding claim_and_review
  claim_and_review-keeps pr =
      if_true-keeps req.dry_run _ _ dry (review_claimed-keeps deps req pr draws runs dry)

  review_pull_request-keeps :
      (pr : PullRequestMeta) → (review_pull_request deps req draws runs pr).0 ≡ runs
  unfolding review_pull_request
  review_pull_request-keeps pr = if-keeps pr.is_closed _ _ refl (
      if-keeps (pr.is_draft && deps.repo_config.events.ignore_draft) _ _ refl
        (claim_and_review-keeps pr))

  attempt-keeps :
      (a : Thrown ⊎ PullRequestMeta) (next : PullRequestMeta → Runs × Ran)
      → ((pr : PullRequestMeta) → (next pr).0 ≡ runs)
      → (attempt runs a next).0 ≡ runs
  attempt-keeps (inl err) next h = refl
  attempt-keeps (inr pr) next h = h pr

  -- A dry run leaves the table of the runs as it is: no claim, no record and no release, on every
  -- path, errors included.
  pub dry_run-keeps : (review_pipeline deps req draws runs).0 ≡ runs
  unfolding review_pipeline
  dry_run-keeps = elim (Option-cases (config_problem deps req)) [
    | inl e ↦
        rw (e, review_pipeline)
          (attempt-keeps (deps.get_pull_request req.repo req.pr_number) _ review_pull_request-keeps)
    | inr (problem, e) ↦ rw (e, review_pipeline) refl
  ]

-- The message of a configuration error is one that the worker takes for such.
config_message-is_config_error :
    (repo problem : String) → is_config_error (config_message repo problem) ≡ true
unfolding is_config_error config_message
config_message-is_config_error repo problem =
    rw (codes-append config_error_prefix (say (" " ∷ repo ∷ ": " ∷ problem ∷ []))) (
      starts_with-append (codes config_error_prefix)
        (codes (say (" " ∷ repo ∷ ": " ∷ problem ∷ []))))

-- A configuration that selects no runner ends the review before GitHub is asked.
config_problem_early :
    (deps : PipelineDeps) (req : ReviewRequest) (draws : Draws) (runs : Runs) (problem : String)
    → is_set req.runner ≡ false
    → runner_config_problem deps.repo_config.runner deps.runner_profiles deps.runners ≡ some problem
    → review_pipeline deps req draws runs
      ≡ (runs, returned (PipelineOutcome.error (config_message req.repo problem) true))
unfolding config_problem review_pipeline
config_problem_early deps req draws runs problem unset h =
    let found : config_problem deps req ≡ some problem = rw (unset, config_problem) h in
    rw (found, review_pipeline) refl

-- A leased job whose repository has a configuration that selects no runner is not buried, however often
-- it is delivered: its review claims nothing and leaves the runs as they are, and the worker puts the job
-- back for its back-off, with that delivery off the count of its attempts.
pub config_problem_waits :
    (deps : PipelineDeps) (draws : Draws) (runs : Runs) (problem : String) (queue : QueueOptions)
    (opts : DrainOptions) (out : LeasedJob) (now : ℕ) (jobs : Jobs) (row : JobRow)
    → runner_config_problem deps.repo_config.runner deps.runner_profiles deps.runners ≡ some problem
    → IsValid jobs
    → find (holds_lease out.lease_id) jobs ≡ some row
    → let review = λ (req : ReviewRequest). review_pipeline deps req draws runs in
      ((review (request_of out)).0 ≡ runs)
      × (find (has_id row.id) (process_leased queue opts out (λ req. (review req).1) now jobs)
          ≡ some (record row {
            status = JobStatus.queued;
            lease_id = none;
            locked_at = none;
            visible_at = now + transient_backoff_ms queue (row.transient_attempts + 1);
            attempts = row.attempts - 1;
            transient_attempts = row.transient_attempts + 1;
          }))
unfolding request_of is_set
config_problem_waits deps draws runs problem queue opts out now jobs row h valid held =
    let req = request_of out in
    let early = config_problem_early deps req draws runs problem refl h in
    (
      ap (λ o. o.0) early,
      config_error_waits queue opts out (λ req. (review_pipeline deps req draws runs).1) now jobs
          row (config_message req.repo problem) valid held (ap (λ o. o.1) early)
          (config_message-is_config_error req.repo problem),
    )

selected_finds :
    (ids : List String) (sel : String ⊎ RunnerSelector)
    → selects_registered ids sel ≡ true
    → (c : Chosen) × (selected ids sel ≡ inr c)
unfolding selected chosen_by get_runner
selected_finds ids (inl message) h = absurd (ground (arith, h))
selected_finds ids (inr sel) h = (
  record { runner = sel.preferred; model = sel.model; reasoning_effort = sel.reasoning_effort },
  rw h refl,
)

-- Past that check the runner that a change selects is always found, forced runners aside: no review
-- fails for its configuration once it has claimed its head.
pub choose_runner_finds :
    (deps : PipelineDeps) (req : ReviewRequest) (s : Signals)
    → is_set req.runner ≡ false
    → config_problem deps req ≡ none
    → (c : Chosen) × (choose_runner deps req s ≡ inr c)
unfolding choose_runner config_problem
choose_runner_finds deps req s unset h =
    let ok =
      no_problem_selects deps.repo_config.runner deps.runner_profiles deps.runners s
        (rw (unset, config_problem) at h) in
    let (c, e) =
      selected_finds deps.runners
        (select_runner_selector deps.repo_config.runner s deps.runner_profiles) ok in
    (c, rw (unset, choose_runner) e)
