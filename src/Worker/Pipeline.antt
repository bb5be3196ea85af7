-- ===== src/Worker/Pipeline.antt =====
-- `reviewPipeline` of src/apps/worker/pipeline.ts: one review, from the pull request to the recorded
-- run. A SHA is never the empty text.
pub mod Leaves
pub mod Ends
pub mod Claims
pub mod Entry
use Prim.Native.String.{◌++◌ as str_append}
use previewer.Prelude.{
  ℕ, ◌⊎◌, inl, inr, String, Bool, true, false, not, ◌&&◌, ◌||◌, Option, none, some, List, [], ◌∷◌,
  any, length, ◌==◌, if◌then◌else◌, str_eq, get_or, is_some, map,
}
use previewer.Core.Text.{Text, codes}
use previewer.Core.Keys.{ReviewKey, review_key}
use previewer.Core.State.{ReviewRun, RunStatus}
use previewer.Core.Failure.{Thrown, thrown_error, absent, text, config_error_prefix}
use previewer.Config.Repo.{RepoConfig}
use previewer.Config.Runners.{RunnerProfiles, runner_config_problem, has_runner, say}
use previewer.Github.Change.{ChangedFile}
use previewer.Store.Reviews.{
  Runs, Claim, default_stale_ms, claimed, duplicate, claim_review, release_claim, record_run,
  last_reviewed_sha,
}
use previewer.Worker.Outcome.{ReviewRequest, PipelineOutcome, Ran, returned, threw}
use previewer.Worker.Gate.{GatingDecision, skip, review, gate}
use previewer.Worker.Policy.{
  Signals, RunnerSelector, change_signals, select_runner_selector, turn_budget,
}
use previewer.Worker.Input.{
  PullRequestMeta, Mode, incremental, full, PreparedWorkspace, ResolvedContext, ReviewInput,
  ReviewResult, build_review_input,
}
use previewer.Worker.Review.{
  RunContext, PipelineDeps, Draws, is_set, attempt, unless, or_else, choose_runner, skip_run,
  to_run,
}

-- What is returned for a result that is recorded.
abbrev pub outcome_of : RunStatus → ReviewResult → Option ℕ → PipelineOutcome
outcome_of RunStatus.error result comment_id = elim result.error [
  | none ↦ PipelineOutcome.error "runner error" true
  | some e ↦ PipelineOutcome.error e.message e.retriable
]
outcome_of _ result comment_id = PipelineOutcome.reviewed comment_id

-- The comment is published unless the run failed or there is none.
abbrev pub publish :
    PipelineDeps → ReviewRequest → PullRequestMeta → RunStatus → Option String → Thrown ⊎ Option ℕ
publish deps req pr RunStatus.error body = inr none
publish deps req pr _ none = inr none
publish deps req pr _ (some body) =
    elim (deps.upsert_review_comment req.repo req.pr_number pr.head_sha body) [
      | inl err ↦ inl err
      | inr comment_id ↦ inr (some comment_id)
    ]

-- From the runner's result to the end of the inner `try`.
unfoldable pub finish_review :
    PipelineDeps
    → ReviewRequest
    → PullRequestMeta
    → Draws
    → Option String
    → Runs
    → ReviewResult
    → Runs × Ran
unfolding to_run
finish_review deps req pr draws reasoning_effort runs result =
    if req.dry_run
    then (runs, returned PipelineOutcome.dry_run)
    else attempt runs (publish deps req pr result.status result.comment) (λ comment_id. (
      record_run (to_run req pr draws result comment_id reasoning_effort) runs,
      returned (outcome_of result.status result comment_id),
    ))

-- `runTests`
abbrev pub run_tests : RepoConfig → ResolvedContext → Bool
run_tests cfg resolved =
    cfg.review.run_tests
    && not (length resolved.tests == 0)
    && any (λ p. p.run_tests) resolved.profiles

abbrev pub install_failure : PipelineDeps → ResolvedContext → PreparedWorkspace → Option Thrown
install_failure deps resolved ws = elim deps.install [
  | none ↦ none
  | some install ↦ if run_tests deps.repo_config resolved then install ws.dir else none
]

-- From the context to the runner's result.
unfoldable pub run_review :
    PipelineDeps → ReviewRequest → PullRequestMeta → Draws → PreparedWorkspace → Runs → Runs × Ran
unfolding choose_runner finish_review build_review_input turn_budget change_signals
run_review deps req pr draws ws runs =
    let changed = ws.diff.changed_files in
    attempt runs (deps.resolve req.repo changed) (λ resolved.
      attempt runs (choose_runner deps req (change_signals changed resolved.severities)) (λ chosen.
        unless runs (install_failure deps resolved ws) (
          let cfg = deps.repo_config in
          let allow_tests = run_tests cfg resolved in
          let reasoning_effort = or_else req.reasoning_effort chosen.reasoning_effort in
          attempt runs
            (deps.review chosen.runner
              (build_review_input cfg (get_or deps.language "en") pr ws resolved allow_tests)
              (record {
                workspace_dir = ws.dir;
                max_input_tokens = cfg.review.max_tokens_per_run;
                max_output_tokens = 8_000;
                max_turns = turn_budget (length changed);
                run_tests = allow_tests;
                model_override = or_else req.model chosen.model;
                reasoning_effort = reasoning_effort;
              }))
            (finish_review deps req pr draws reasoning_effort runs))))

unfoldable pub on_decision :
    PipelineDeps
    → ReviewRequest
    → PullRequestMeta
    → Draws
    → PreparedWorkspace
    → Runs
    → GatingDecision
    → Runs × Ran
unfolding skip_run run_review
on_decision deps req pr draws ws runs (skip reason) = (
  if req.dry_run then runs else record_run (skip_run req pr draws reason) runs,
  returned (PipelineOutcome.skipped reason),
)
on_decision deps req pr draws ws runs (review n) = run_review deps req pr draws ws runs

-- The inner `try`: the gate, then the review.
unfoldable pub review_workspace :
    PipelineDeps → ReviewRequest → PullRequestMeta → Draws → PreparedWorkspace → Runs → Runs × Ran
unfolding gate on_decision
review_workspace deps req pr draws ws runs =
    on_decision deps req pr draws ws runs
      (gate ws.diff.changed_files (map codes deps.repo_config.events.ignore_paths))

-- `finally { await ws.cleanup() }`: what it throws takes the place of the outcome.
abbrev pub with_cleanup : Option Thrown → Runs × Ran → Runs × Ran
with_cleanup none (runs, ran) = (runs, ran)
with_cleanup (some err) (runs, ran) = (runs, threw err)

-- The last reviewed head, for an incremental review
unfoldable pub last_head : PipelineDeps → ReviewRequest → Runs → Option String
unfolding last_reviewed_sha
last_head deps req runs =
    if deps.repo_config.review.incremental && not req.full
    then last_reviewed_sha req.repo req.pr_number runs
    else none

abbrev mode_of : Option String → Mode
mode_of none = full
mode_of (some sha) = incremental

-- The outer `try`.
unfoldable pub try_review :
    PipelineDeps → ReviewRequest → PullRequestMeta → Draws → Runs → Runs × Ran
unfolding last_head review_workspace
try_review deps req pr draws runs =
    let last = last_head deps req runs in
    attempt runs
      (deps.prepare req.repo (get_or last pr.base_sha) pr.head_sha (mode_of last) pr.base_sha)
      (λ ws. with_cleanup (deps.cleanup ws) (review_workspace deps req pr draws ws runs))

-- Its `catch`: the claim is released, unless none was made.
abbrev pub release_on_throw : ReviewRequest → ReviewKey → ℕ → Runs × Ran → Runs × Ran
release_on_throw req key claim_id (runs, returned o) = (runs, returned o)
release_on_throw req key claim_id (runs, threw err) =
    (if req.dry_run then runs else release_claim key claim_id runs, threw err)

-- All that follows the claim
unfoldable pub review_claimed :
    PipelineDeps → ReviewRequest → PullRequestMeta → Draws → Runs → Runs × Ran
unfolding try_review
review_claimed deps req pr draws runs =
    release_on_throw req (review_key req.repo req.pr_number pr.head_sha) draws.claim_id
      (try_review deps req pr draws runs)

-- What follows the answer to a claim
unfoldable pub answered :
    PipelineDeps → ReviewRequest → PullRequestMeta → Draws → Runs × Claim → Runs × Ran
unfolding review_claimed
answered deps req pr draws (after, duplicate) = (after, returned PipelineOutcome.duplicate)
answered deps req pr draws (after, claimed) = review_claimed deps req pr draws after

-- The claim, and what follows it if it is granted; a dry run makes none.
unfoldable pub claim_and_review :
    PipelineDeps → ReviewRequest → PullRequestMeta → Draws → Runs → Runs × Ran
unfolding answered review_claimed claim_review review_key
claim_and_review deps req pr draws runs =
    if req.dry_run
    then review_claimed deps req pr draws runs
    else answered deps req pr draws (
        claim_review draws.claimed_at (review_key req.repo req.pr_number pr.head_sha) req.force
          default_stale_ms draws.claim_id runs)

-- From the pull request on
unfoldable pub review_pull_request :
    PipelineDeps → ReviewRequest → Draws → Runs → PullRequestMeta → Runs × Ran
unfolding claim_and_review
review_pull_request deps req draws runs pr =
    if pr.is_closed
    then (runs, returned (PipelineOutcome.skipped "PR is closed"))
    else if pr.is_draft && deps.repo_config.events.ignore_draft
    then (runs, returned (PipelineOutcome.skipped "PR is draft"))
    else claim_and_review deps req pr draws runs

-- The message of a configuration that selects no runner.
unfoldable pub config_message : String → String → String
config_message repo problem =
    str_append config_error_prefix (say (" " ∷ repo ∷ ": " ∷ problem ∷ []))

-- What the check of the configuration finds; a runner that is forced is not checked.
unfoldable pub config_problem : PipelineDeps → ReviewRequest → Option String
unfolding is_set runner_config_problem
config_problem deps req =
    if is_set req.runner
    then none
    else runner_config_problem deps.repo_config.runner deps.runner_profiles deps.runners

-- `reviewPipeline`
unfoldable pub review_pipeline : PipelineDeps → ReviewRequest → Draws → Runs → Runs × Ran
unfolding config_problem config_message review_pull_request
review_pipeline deps req draws runs = elim (config_problem deps req) [
  | some problem ↦ (runs, returned (PipelineOutcome.error (config_message req.repo problem) true))
  | none ↦
      attempt runs (deps.get_pull_request req.repo req.pr_number)
        (review_pull_request deps req draws runs)
]
