-- ===== src/Worker/Input.antt =====
-- The data that a review passes around: `PullRequestMeta` of src/core/interfaces.ts, the workspace of
-- src/apps/worker/workspace.ts, the context and the result of src/config/schema/review.ts, and
-- `buildReviewInput` of src/apps/worker/pipeline.ts.
use previewer.Prelude.{ℕ, ◌*◌, ◌≤◌, min, String, Bool, Option, List, length, arith}
use previewer.Core.Text.{Text}
use previewer.Core.State.{RunStatus}
use previewer.Config.Repo.{RepoConfig}
use previewer.Github.Change.{ChangedFile}
use previewer.Worker.Policy.{Severity}
use previewer.Worker.DiffBudget.{cap_patch}
use previewer.Worker.DiffBudget.Budget.{cap_patch-bound}

pub record PullRequestMeta : Type 0 where
  pub number : ℕ
  pub title : String
  pub body : String
  pub base_sha : String
  pub head_sha : String
  pub author : String
  pub is_draft : Bool
  pub is_closed : Bool

pub data Mode : Type 0 where
  incremental full : Mode

pub record Diff : Type 0 where
  pub mode : Mode
  pub from_sha : String
  pub to_sha : String
  pub patch : Text
  pub changed_files : List ChangedFile

pub record PreparedWorkspace : Type 0 where
  pub dir : String
  pub diff : Diff

-- Of a profile, what the pipeline reads
pub record ReviewProfile : Type 0 where
  pub run_tests : Bool

pub record ResolvedContext : Type 0 where
  pub pack_version : String
  pub comment_template : String
  pub severities : List Severity
  pub active_profiles : List String
  pub profiles : List ReviewProfile
  pub tests : List String

pub record ReviewInput : Type 0 where
  pub repo_id : String
  pub default_branch : String
  pub pr : PullRequestMeta
  pub diff : Diff
  pub omitted_files : List Text
  pub context : ResolvedContext
  pub comment_template : String
  pub language : String
  pub max_comment_chars : ℕ
  pub max_input_tokens : ℕ
  pub max_output_tokens : ℕ
  pub dir : String
  pub allow_tests : Bool
  pub read_budget_files : ℕ

pub record RunError : Type 0 where
  pub kind : String
  pub message : String
  pub retriable : Bool

pub record ReviewResult : Type 0 where
  pub status : RunStatus
  pub comment : Option String
  pub error : Option RunError
  pub runner_id : String
  pub model : String
  pub profile : String
  pub tokens_in : ℕ
  pub tokens_out : ℕ
  pub usd : ℕ
  pub duration_ms : ℕ

-- `patchBudgetChars`
unfoldable pub patch_budget_chars : RepoConfig → ℕ
patch_budget_chars cfg = min cfg.review.max_patch_chars (cfg.review.max_tokens_per_run * 3)

-- `buildReviewInput`
unfoldable pub build_review_input :
    RepoConfig → String → PullRequestMeta → PreparedWorkspace → ResolvedContext → Bool → ReviewInput
unfolding cap_patch patch_budget_chars
build_review_input cfg language pr ws resolved allow_tests =
    let capped = cap_patch ws.diff.patch (patch_budget_chars cfg) in
    record {
      repo_id = cfg.id;
      default_branch = cfg.default_branch;
      pr = pr;
      diff = record ws.diff { patch = capped.patch };
      omitted_files = capped.omitted_files;
      context = resolved;
      comment_template = resolved.comment_template;
      language = language;
      max_comment_chars = 65_000;
      max_input_tokens = cfg.review.max_tokens_per_run;
      max_output_tokens = 8_000;
      dir = ws.dir;
      allow_tests = allow_tests;
      read_budget_files = 40;
    }

-- With positive limits in the configuration, the patch in a runner's input is never longer than
-- `maxPatchChars`, nor than three characters for each token of the budget.
pub build_review_input-bound :
    (cfg : RepoConfig) (language : String) (pr : PullRequestMeta) (ws : PreparedWorkspace)
    (resolved : ResolvedContext) (allow_tests : Bool)
    → 1 ≤ cfg.review.max_patch_chars
    → 1 ≤ cfg.review.max_tokens_per_run
    → (length (build_review_input cfg language pr ws resolved allow_tests).diff.patch
        ≤ cfg.review.max_patch_chars)
      × (length (build_review_input cfg language pr ws resolved allow_tests).diff.patch
          ≤ 3 * cfg.review.max_tokens_per_run)
unfolding build_review_input patch_budget_chars
build_review_input-bound cfg language pr ws resolved allow_tests chars tokens =
    let bound =
      cap_patch-bound ws.diff.patch (patch_budget_chars cfg) (omega (arith, chars, tokens)) in
    (omega (arith, bound), omega (arith, bound))
