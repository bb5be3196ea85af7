-- ===== src/Config/Repo.antt =====
-- src/config/schema/{common,repo,platform}.ts: the parts of a repository's configuration that the
-- review path reads. A level of reasoning effort is the word of the ladder `low` … `max`.
use previewer.Prelude.{ℕ, String, Bool, Option, List}

pub data ChangeType : Type 0 where
  feature bugfix refactor migration docs deps config test infra other : ChangeType

pub data SizeClass : Type 0 where
  tiny small medium large huge : SizeClass

pub data RiskLevel : Type 0 where
  low medium high : RiskLevel

pub data RunnerPolicy : Type 0 where
  cost_first quality_first fixed : RunnerPolicy

-- The conditions of an override; one that is absent holds of every change.
pub record When : Type 0 where
  pub change_type : Option ChangeType
  pub size : Option SizeClass
  pub risk : Option RiskLevel

pub record RunnerOverride : Type 0 where
  pub when : When
  pub use_runner : String
  pub model : Option String
  pub reasoning_effort : Option String

-- The block `runner` of repo.yaml; `default` is a word of the language.
pub record RunnerBlock : Type 0 where
  pub policy : RunnerPolicy
  pub profile : Option String
  pub default_runner : String
  pub model : Option String
  pub reasoning_effort : Option String
  pub overrides : List RunnerOverride

pub record EventTriggers : Type 0 where
  pub triggers : List String
  pub ignore_draft : Bool
  pub ignore_paths : List String

pub record ReviewBlock : Type 0 where
  pub incremental : Bool
  pub max_tokens_per_run : ℕ
  pub max_patch_chars : ℕ
  pub run_tests : Bool

pub record RepoConfig : Type 0 where
  pub id : String
  pub enabled : Bool
  pub default_branch : String
  pub events : EventTriggers
  pub review : ReviewBlock
  pub runner : RunnerBlock

-- A named profile of the platform's configuration
pub record RunnerProfile : Type 0 where
  pub runner : String
  pub model : Option String
  pub reasoning_effort : Option String
