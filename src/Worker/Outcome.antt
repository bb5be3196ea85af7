-- ===== src/Worker/Outcome.antt =====
-- `ReviewRequest` and `PipelineOutcome` of src/apps/worker/pipeline.ts: what a run is asked for, and
-- how it ends.
use previewer.Prelude.{ℕ, String, Bool, Option}
use previewer.Core.Failure.{Thrown}

pub record ReviewRequest : Type 0 where
  pub repo : String
  pub pr_number : ℕ
  pub dry_run : Bool
  pub force : Bool
  pub runner : Option String
  pub model : Option String
  pub reasoning_effort : Option String
  pub full : Bool

pub data PipelineOutcome : Type 0 where
  reviewed : Option ℕ → PipelineOutcome
  dry_run : PipelineOutcome
  duplicate : PipelineOutcome
  skipped : String → PipelineOutcome
  error : String → Bool → PipelineOutcome

-- A call of the pipeline returns an outcome or throws.
pub data Ran : Type 0 where
  returned : PipelineOutcome → Ran
  threw : Thrown → Ran
