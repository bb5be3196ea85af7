-- ===== src/Tests/Pipeline.antt =====
-- The pipeline at concrete inputs: an environment in which the runner answers, one whose clean-up
-- throws, and a configuration that selects no runner.
use previewer.Prelude.{
  ◌+◌, String, ◌≡◌, refl, ◌⊎◌, inl, inr, true, false, none, some, List, [], ◌∷◌, find,
}
use previewer.Core.Text.{codes}
use previewer.Core.Keys.{review_key}
use previewer.Core.State.{RunStatus, JobStatus}
use previewer.Core.Failure.{Thrown, thrown_text}
use previewer.Config.Repo.{SizeClass, ChangeType, RiskLevel}
use previewer.Config.Runners.{runner_config_problem}
use previewer.Context.Glob.{glob_match}
use previewer.Github.Change.{ChangedFile, ChangeStatus}
use previewer.Store.Reviews.{for_key, claim_review, claimed, is_reviewed}
use previewer.Store.Reviews.Unique.{IsUnique-empty}
use previewer.Worker.Outcome.{ReviewRequest, PipelineOutcome, returned}
use previewer.Worker.Input.{full, PreparedWorkspace, ResolvedContext, ReviewResult}
use previewer.Worker.Review.{PipelineDeps, Draws, Chosen, choose_runner, is_set}
use previewer.Worker.Pipeline.{claim_and_review, config_problem, review_pipeline}
use previewer.Worker.Pipeline.Ends.{Ends}
use previewer.Worker.Pipeline.Claims.{claim_and_review-Ends, claim_and_review-retries}
use previewer.Worker.Pipeline.Entry.{dry_run-keeps, config_problem_waits, choose_runner_finds}
use previewer.Store.Queue.{default_options, has_id, transient_backoff_ms}
use previewer.Worker.Loop.{no_options, request_of, process_leased}
use previewer.Tests.Data.{a_lease, running_row, running-IsValid, a_config, a_pull_request}

abbrev pub a_request : ReviewRequest
a_request = record {
  repo = "acme/api";
  pr_number = 7;
  dry_run = false;
  force = false;
  runner = none;
  model = none;
  reasoning_effort = none;
  full = false;
}

abbrev pub a_file : ChangedFile
a_file = record {
  path = codes "src/a.ts";
  status = ChangeStatus.added;
  additions = 1;
  deletions = 0;
  size_class = SizeClass.tiny;
}

abbrev pub a_workspace : PreparedWorkspace
a_workspace = record {
  dir = "/tmp/w";
  diff = record {
    mode = full;
    from_sha = "000aaaa";
    to_sha = "abc1234";
    patch = codes "+a";
    changed_files = a_file ∷ [];
  };
}

abbrev pub a_context : ResolvedContext
a_context = record {
  pack_version = "context-pack@v1";
  comment_template = "";
  severities = [];
  active_profiles = [];
  profiles = [];
  tests = [];
}

abbrev pub a_result : ReviewResult
a_result = record {
  status = RunStatus.ok;
  comment = some "fine";
  error = none;
  runner_id = "codex-cli";
  model = "m";
  profile = "standard";
  tokens_in = 10;
  tokens_out = 5;
  usd = 0;
  duration_ms = 100;
}

-- A runner that answers, with what the workspace's clean-up and its preparation throw.
abbrev pub deps_with : Thrown ⊎ PreparedWorkspace → List String → PipelineDeps
deps_with prepared runners = record {
  repo_config = a_config;
  runner_profiles = [];
  runners = runners;
  language = none;
  get_pull_request = λ repo pr. inr a_pull_request;
  prepare = λ repo from to mode base. prepared;
  cleanup = λ ws. none;
  resolve = λ repo files. inr a_context;
  install = none;
  review = λ runner input ctx. inr a_result;
  upsert_review_comment = λ repo pr sha body. inr 501;
}

abbrev pub deps : PipelineDeps
deps = deps_with (inr a_workspace) ("codex-cli" ∷ [])

abbrev broken_deps : PipelineDeps
broken_deps = deps_with (inl (thrown_text "fetch failed")) ("codex-cli" ∷ [])

abbrev pub draws : Draws
draws = record {
  claim_id = 21;
  run_id = 31;
  claimed_at = 1_000;
  started_at = 1_001;
  finished_at = 2_000;
}

claim_and_review-Ends_example :
    Ends
      (find
        (for_key (review_key "acme/api" 7 "abc1234"))
        (claim_and_review deps a_request a_pull_request draws []).0)
      (claim_and_review deps a_request a_pull_request draws []).1
unfolding claim_review
claim_and_review-Ends_example =
    claim_and_review-Ends deps a_request a_pull_request draws [] refl IsUnique-empty refl

claim_and_review-retries_example :
    ((claim_review 5_000
        (review_key "acme/api" 7 "abc1234")
        false
        900_000
        22
        (claim_and_review broken_deps a_request a_pull_request draws []).0).1
      ≡ claimed)
    ⊎ (is_reviewed
          (review_key "acme/api" 7 "abc1234")
          (claim_and_review broken_deps a_request a_pull_request draws []).0
        ≡ true)
unfolding claim_review claim_and_review
claim_and_review-retries_example =
    claim_and_review-retries broken_deps a_request a_pull_request draws []
      (thrown_text "fetch failed") 5_000 900_000 22 refl IsUnique-empty refl refl

dry_run-keeps_example : (review_pipeline deps (record a_request { dry_run = true }) draws []).0 ≡ []
dry_run-keeps_example = dry_run-keeps deps (record a_request { dry_run = true }) draws [] refl

abbrev no_runner_deps : PipelineDeps
no_runner_deps = deps_with (inr a_workspace) []

abbrev a_problem : String
a_problem =
    "runner.default selects unknown runner \"codex-cli\". Registered runners: (none registered)."

config_problem_waits_example :
    ((review_pipeline no_runner_deps (request_of a_lease) draws []).0 ≡ [])
    × (find (has_id 11) (
          process_leased default_options no_options a_lease
            (λ req. (review_pipeline no_runner_deps req draws []).1)
            2_100
            (running_row ∷ []))
        ≡ some (record running_row {
          status = JobStatus.queued;
          lease_id = none;
          locked_at = none;
          visible_at = 2_100 + transient_backoff_ms default_options 1;
          attempts = 0;
          transient_attempts = 1;
        }))
unfolding is_set runner_config_problem
config_problem_waits_example =
    config_problem_waits no_runner_deps draws [] a_problem default_options no_options a_lease 2_100
      (running_row ∷ []) running_row refl running-IsValid refl

choose_runner_finds_example :
    (c : Chosen) × (choose_runner deps a_request
        (record { change_type = ChangeType.other; size = SizeClass.tiny; risk = RiskLevel.low })
      ≡ inr c)
unfolding is_set config_problem
choose_runner_finds_example =
    choose_runner_finds deps a_request
      (record { change_type = ChangeType.other; size = SizeClass.tiny; risk = RiskLevel.low }) refl
      refl

-- The outcome of the example: the comment is published, and its run recorded.
pipeline_test :
    (review_pipeline deps a_request draws []).1 ≡ returned (PipelineOutcome.reviewed (some 501))
unfolding review_pipeline glob_match
pipeline_test = refl
