-- ===== src/Core/State.antt =====
-- `Job`, `JobSource`, `JobStatus` and `ReviewRun` of src/config/schema/state.ts. A time is the
-- number of milliseconds that `iso` prints: the texts are of fixed width, so they order as the
-- numbers do. A random UUID, lower-case hexadecimal of fixed width, is the number that it writes.
use previewer.Prelude.{ℕ, String, Bool, Option}
use previewer.Core.Keys.{ReviewKey}

pub data JobSource : Type 0 where
  webhook reconciler manual : JobSource

pub data JobStatus : Type 0 where
  queued running done skipped error dead_letter : JobStatus

pub record Job : Type 0 where
  pub id : ℕ
  pub key : ReviewKey
  pub open key use {repo, pr_number, head_sha}
  pub base_sha : Option String
  pub full : Bool
  pub source : JobSource
  pub status : JobStatus
  pub attempts : ℕ
  pub locked_at : Option ℕ
  pub created_at : ℕ

pub data RunStatus : Type 0 where
  ok skipped error : RunStatus

-- `usd` is counted in the smallest unit that a runner reports.
pub record ReviewRun : Type 0 where
  pub id : ℕ
  pub key : ReviewKey
  pub open key use {repo, pr_number, head_sha}
  pub base_sha : Option String
  pub runner : Option String
  pub model : Option String
  pub reasoning_effort : Option String
  pub profile : Option String
  pub status : RunStatus
  pub comment_id : Option ℕ
  pub tokens_in : ℕ
  pub tokens_out : ℕ
  pub usd : ℕ
  pub duration_ms : ℕ
  pub error : Option String
  pub started_at : ℕ
  pub finished_at : Option ℕ
