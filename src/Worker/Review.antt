-- ===== src/Worker/Review.antt =====
-- What a review depends on, the runner that it chooses, and the rows that it records:
-- `PipelineDeps`, `skipRun` and `toRun` of src/apps/worker/pipeline.ts, and the registry of
-- src/runners/registry.ts. What GitHub, git, the context pack, the installer and the runners do is a
-- field of `PipelineDeps`: a value, or what is thrown.
use previewer.Prelude.{
  ℕ, ◌⊎◌, inl, inr, String, Bool, false, not, Option, none, some, List, [], ◌∷◌, if◌then◌else◌,
  str_eq, get_or,
}
use previewer.Core.Keys.{review_key}
use previewer.Core.State.{ReviewRun, RunStatus}
use previewer.Core.Failure.{Thrown, thrown_error, absent, text}
use previewer.Config.Repo.{RepoConfig}
use previewer.Config.Runners.{RunnerProfiles, has_runner, say}
use previewer.Github.Change.{ChangedFile}
use previewer.Store.Reviews.{Runs}
use previewer.Worker.Outcome.{ReviewRequest, Ran, threw}
use previewer.Worker.Policy.{Signals, RunnerSelector, select_runner_selector}
use previewer.Worker.Input.{
  PullRequestMeta, Mode, PreparedWorkspace, ResolvedContext, ReviewInput, ReviewResult,
}

pub record RunContext : Type 0 where
  pub workspace_dir : String
  pub max_input_tokens : ℕ
  pub max_output_tokens : ℕ
  pub max_turns : ℕ
  pub run_tests : Bool
  pub model_override : Option String
  pub reasoning_effort : Option String

-- The dependencies, but for the store: its table is passed on.
pub record PipelineDeps : Type 0 where
  pub repo_config : RepoConfig
  pub runner_profiles : RunnerProfiles
  pub runners : List String
  pub language : Option String
  pub get_pull_request : String → ℕ → Thrown ⊎ PullRequestMeta
  pub prepare : String → String → String → Mode → String → Thrown ⊎ PreparedWorkspace
  pub cleanup : PreparedWorkspace → Option Thrown
  pub resolve : String → List ChangedFile → Thrown ⊎ ResolvedContext
  pub install : Option (String → Option Thrown)
  pub review : String → ReviewInput → RunContext → Thrown ⊎ ReviewResult
  pub upsert_review_comment : String → ℕ → String → String → Thrown ⊎ ℕ

-- The UUIDs that a run draws, and what its clock shows.
pub record Draws : Type 0 where
  pub claim_id : ℕ
  pub run_id : ℕ
  pub claimed_at : ℕ
  pub started_at : ℕ
  pub finished_at : ℕ

-- `Boolean(req.runner)`
unfoldable pub is_set : Option String → Bool
is_set none = false
is_set (some s) = not (str_eq s "")

-- A call that throws ends what is left of the block.
abbrev pub attempt : {A : Type 0} → Runs → Thrown ⊎ A → (A → Runs × Ran) → Runs × Ran
attempt runs (inl err) next = (runs, threw err)
attempt runs (inr a) next = next a

abbrev pub unless : Runs → Option Thrown → Runs × Ran → Runs × Ran
unless runs none next = next
unless runs (some err) next = (runs, threw err)

-- `new Error(message)`
abbrev pub new_error : String → Thrown
new_error message = thrown_error message "Error" (record {
  status = absent;
  status_code = absent;
  response_status = absent;
  code = absent;
  cause_code = absent;
  message = text message;
  stderr = absent;
})

-- `DefaultRunnerRegistry.get`
unfoldable pub get_runner : List String → String → Thrown ⊎ String
unfolding has_runner
get_runner ids id =
    if has_runner ids id then inr id else inl (new_error (say ("Runner not found: " ∷ id ∷ [])))

-- The runner of a review, with the model and the effort that the configuration gives it.
pub record Chosen : Type 0 where
  pub runner : String
  pub model : Option String
  pub reasoning_effort : Option String

unfoldable pub chosen_by : RunnerSelector → Thrown ⊎ String → Thrown ⊎ Chosen
chosen_by sel (inl err) = inl err
chosen_by sel (inr id) =
    inr (record { runner = id; model = sel.model; reasoning_effort = sel.reasoning_effort })

forced : Thrown ⊎ String → Thrown ⊎ Chosen
forced (inl err) = inl err
forced (inr id) = inr (record { runner = id; model = none; reasoning_effort = none })

unfoldable pub selected : List String → String ⊎ RunnerSelector → Thrown ⊎ Chosen
unfolding chosen_by get_runner
selected ids (inl message) = inl (new_error message)
selected ids (inr sel) = chosen_by sel (get_runner ids sel.preferred)

unfoldable pub choose_runner : PipelineDeps → ReviewRequest → Signals → Thrown ⊎ Chosen
unfolding is_set forced selected get_runner select_runner_selector
choose_runner deps req signals =
    if is_set req.runner
    then forced (get_runner deps.runners (get_or req.runner ""))
    else selected deps.runners
        (select_runner_selector deps.repo_config.runner signals deps.runner_profiles)

-- `a ?? b`
abbrev pub or_else : Option String → Option String → Option String
or_else none b = b
or_else (some a) b = some a

-- `skipRun`
unfoldable pub skip_run : ReviewRequest → PullRequestMeta → Draws → String → ReviewRun
unfolding review_key
skip_run req pr draws reason = record {
  id = draws.run_id;
  key = review_key req.repo req.pr_number pr.head_sha;
  base_sha = some pr.base_sha;
  runner = none;
  model = none;
  reasoning_effort = none;
  profile = none;
  status = RunStatus.skipped;
  comment_id = none;
  tokens_in = 0;
  tokens_out = 0;
  usd = 0;
  duration_ms = 0;
  error = some reason;
  started_at = draws.started_at;
  finished_at = some draws.finished_at;
}

abbrev error_message : ReviewResult → Option String
error_message result = elim result.error [ none ↦ none | some e ↦ some e.message ]

-- `toRun`
unfoldable pub to_run :
    ReviewRequest → PullRequestMeta → Draws → ReviewResult → Option ℕ → Option String → ReviewRun
unfolding review_key
to_run req pr draws result comment_id reasoning_effort = record {
  id = draws.run_id;
  key = review_key req.repo req.pr_number pr.head_sha;
  base_sha = some pr.base_sha;
  runner = some result.runner_id;
  model = some result.model;
  reasoning_effort = reasoning_effort;
  profile = some result.profile;
  status = result.status;
  comment_id = comment_id;
  tokens_in = result.tokens_in;
  tokens_out = result.tokens_out;
  usd = result.usd;
  duration_ms = result.duration_ms;
  error = error_message result;
  started_at = draws.started_at;
  finished_at = some draws.finished_at;
}
