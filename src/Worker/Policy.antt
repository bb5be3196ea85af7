-- ===== src/Worker/Policy.antt =====
-- src/apps/worker/policy.ts: the signals of a change, the runner that they select, and the turns
-- that the run is given. A path is the list of its UTF-16 units.
pub mod Selection
use previewer.Prelude.{
  ℕ, ◌+◌, ◌*◌, min, max, String, find, Bool, true, false, not, ◌&&◌, ◌||◌, ◌⊎◌, inl, inr, Option,
  none, some, List, [], ◌∷◌, map, any, all, length, if◌then◌else◌, str_eq, leb, ◌==◌,
}
use previewer.Core.Text.{Text, codes, same_text, lower}
use previewer.Core.Regex.{
  Re, empty, set, then_, either, char, phrase, optional, seq, any_of, test_from, matches,
}
use previewer.Github.Change.{ChangedFile, size_class_of}
use previewer.Config.Repo.{
  ChangeType, SizeClass, RiskLevel, RunnerPolicy, RunnerBlock, RunnerOverride, When,
}
use previewer.Config.Runners.{RunnerProfiles, ResolvedRunnerProfile, resolve_runner_profile}

pub data Severity : Type 0 where
  info low medium high critical : Severity

pub record Signals : Type 0 where
  pub change_type : ChangeType
  pub size : SizeClass
  pub risk : RiskLevel

-- `text.endsWith(suffix)`
ends_with : Text → Text → Bool
unfolding same_text
ends_with suffix [] = same_text suffix []
ends_with suffix (c ∷ cs) = same_text suffix (c ∷ cs) || ends_with suffix cs

abbrev migration_dir : Re
migration_dir = seq (phrase "migration" ∷ optional (char b's') ∷ char b'/' ∷ [])

-- `/(^|\/)migrations?\//i.test(p)`
is_migration_path : Text → Bool
unfolding matches test_from lower
is_migration_path p =
    matches migration_dir (λ _ _. true) none (lower p)
    || test_from (then_ (char b'/') migration_dir) none (lower p)

abbrev lock_files : List String
lock_files = "package-lock.json" ∷ "pnpm-lock.yaml" ∷ "yarn.lock" ∷ []

-- `/(^|\/)(package-lock\.json|pnpm-lock\.yaml|yarn\.lock)$/.test(p)`
is_lock_file : Text → Bool
unfolding ends_with same_text
is_lock_file p =
    any (λ name. same_text (codes name) p || ends_with (b'/' ∷ codes name) p) lock_files

-- `inferChangeType`
unfoldable pub infer_change_type : List ChangedFile → ChangeType
unfolding is_migration_path is_lock_file ends_with
infer_change_type [] = ChangeType.other
infer_change_type (f ∷ fs) =
    let paths = map (λ x. x.path) (f ∷ fs) in
    if any (λ p. is_migration_path p || ends_with (codes ".sql") p) paths
    then ChangeType.migration
    else if all (ends_with (codes ".md")) paths
    then ChangeType.docs
    else if any is_lock_file paths
    then ChangeType.deps
    else ChangeType.other

-- The lines that a change adds and deletes
abbrev pub churn : List ChangedFile → ℕ
churn [] = 0
churn (f ∷ fs) = f.additions + f.deletions + churn fs

abbrev pub is_grave : Severity → Bool
is_grave Severity.critical = true
is_grave Severity.high = true
is_grave _ = false

risk_of : List Severity → RiskLevel
risk_of [] = RiskLevel.low
risk_of (s ∷ ss) = if any is_grave (s ∷ ss) then RiskLevel.high else RiskLevel.medium

-- `changeSignals`, of which the context gives the severities of its invariants
unfoldable pub change_signals : List ChangedFile → List Severity → Signals
unfolding infer_change_type risk_of
change_signals changed severities = record {
  change_type = infer_change_type changed;
  size = size_class_of (churn changed);
  risk = risk_of severities;
}

-- `turnBudget`; the count of a list is not negative.
unfoldable pub turn_budget : ℕ → ℕ
turn_budget changed_file_count = min 160 (40 + 3 * changed_file_count)

abbrev change_type_code : ChangeType → ℕ
change_type_code ChangeType.feature = 0
change_type_code ChangeType.bugfix = 1
change_type_code ChangeType.refactor = 2
change_type_code ChangeType.migration = 3
change_type_code ChangeType.docs = 4
change_type_code ChangeType.deps = 5
change_type_code ChangeType.config = 6
change_type_code ChangeType.test = 7
change_type_code ChangeType.infra = 8
change_type_code ChangeType.other = 9

abbrev size_code : SizeClass → ℕ
size_code SizeClass.tiny = 0
size_code SizeClass.small = 1
size_code SizeClass.medium = 2
size_code SizeClass.large = 3
size_code SizeClass.huge = 4

abbrev risk_code : RiskLevel → ℕ
risk_code RiskLevel.low = 0
risk_code RiskLevel.medium = 1
risk_code RiskLevel.high = 2

-- `when.x && when.x !== s.x` is false.
abbrev agrees : {A : Type 0} → (A → ℕ) → Option A → A → Bool
agrees code none a = true
agrees code (some w) a = code w == code a

-- `whenMatches`
unfoldable pub when_matches : When → Signals → Bool
when_matches w s =
    agrees change_type_code w.change_type s.change_type
    && agrees size_code w.size s.size
    && agrees risk_code w.risk s.risk

pub record RunnerSelector : Type 0 where
  pub policy : RunnerPolicy
  pub signals : Signals
  pub preferred : String
  pub model : Option String
  pub reasoning_effort : Option String

abbrev pub select_override : RunnerBlock → Signals → RunnerOverride → RunnerSelector
select_override runner s o = record {
  policy = runner.policy;
  signals = s;
  preferred = o.use_runner;
  model = o.model;
  reasoning_effort = o.reasoning_effort;
}

abbrev pub select_client : RunnerBlock → Signals → ResolvedRunnerProfile → RunnerSelector
select_client runner s active = record {
  policy = runner.policy;
  signals = s;
  preferred = active.runner;
  model = active.model;
  reasoning_effort = active.reasoning_effort;
}

-- With no override, the profile or the inline block selects the client.
abbrev pub client_selector :
    RunnerBlock → Signals → String ⊎ ResolvedRunnerProfile → String ⊎ RunnerSelector
client_selector runner s (inl message) = inl message
client_selector runner s (inr active) = inr (select_client runner s active)

-- `selectRunnerSelector`: the message that it throws with, or the selector
unfoldable pub select_runner_selector :
    RunnerBlock → Signals → RunnerProfiles → String ⊎ RunnerSelector
unfolding when_matches resolve_runner_profile
select_runner_selector runner s profiles =
    elim (find (λ o. when_matches o.when s) runner.overrides) [
      | some o ↦ inr (select_override runner s o)
      | none ↦ client_selector runner s (resolve_runner_profile runner profiles)
    ]
