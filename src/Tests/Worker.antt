-- ===== src/Tests/Worker.antt =====
-- The worker's decisions at concrete inputs.
use previewer.Prelude.{ℕ, ◌≤◌, ◌≡◌, refl, ◌↔◌, inr, true, false, none, some, [], ◌∷◌, length, arith}
use previewer.Core.Text.{Text, codes}
use previewer.Core.Lines.{join_lines}
use previewer.Config.Repo.{
  RunnerBlock, RunnerOverride, RunnerPolicy, ChangeType, SizeClass, RiskLevel,
}
use previewer.Context.Glob.{no_star, pieces, glob_match}
use previewer.Context.Glob.Meaning.{Matches, glob_match-Matches}
use previewer.Github.Change.{ChangedFile, ChangeStatus}
use previewer.Store.Queue.{default_options}
use previewer.Worker.Outcome.{PipelineOutcome, Ran, returned}
use previewer.Worker.Policy.{Signals}
use previewer.Worker.DiffBudget.{split_patch_by_file, cap_patch}
use previewer.Worker.DiffBudget.Sections.{texts, split_patch-rejoins}
use previewer.Worker.DiffBudget.Budget.{cap_patch-bound}
use previewer.Worker.DiffBudget.Honesty.{Honest, cap_patch-Honest}
use previewer.Worker.Loop.{no_options, process_leased, Round}
use previewer.Worker.Loop.Routes.{settled_row, process_leased-Settles}
use previewer.Store.Queue.Settling.{Settles}
use previewer.Tests.Data.{a_lease, running_row, running-IsValid}

abbrev a_file : ChangedFile
a_file = record {
  path = codes "src/a.ts";
  status = ChangeStatus.modified;
  additions = 3;
  deletions = 1;
  size_class = SizeClass.tiny;
}

glob_match-Matches_example :
    (glob_match (codes "src/**/*.ts") (codes "src/a.ts") ≡ true)
    ↔ Matches (pieces no_star (codes "src/**/*.ts")) (codes "src/a.ts")
glob_match-Matches_example = glob_match-Matches (codes "src/**/*.ts") (codes "src/a.ts")

-- A glob matches over directories, and not part of a path.
glob_test :
    (glob_match (codes "src/**/*.ts") (codes "src/a.ts") ≡ true)
    × (glob_match (codes "src/**/*.ts") (codes "src/b/c/a.ts") ≡ true)
    × (glob_match (codes "src/*.ts") (codes "src/b/a.ts") ≡ false)
unfolding glob_match
glob_test = (refl, refl, refl)

abbrev an_override : RunnerOverride
an_override = record {
  when = record { change_type = some ChangeType.docs; size = none; risk = none };
  use_runner = "claude-cli";
  model = some "small";
  reasoning_effort = none;
}

abbrev a_block : RunnerBlock
a_block = record {
  policy = RunnerPolicy.cost_first;
  profile = none;
  default_runner = "codex-cli";
  model = none;
  reasoning_effort = none;
  overrides = an_override ∷ [];
}

abbrev some_signals : Signals
some_signals = record {
  change_type = ChangeType.docs;
  size = SizeClass.small;
  risk = RiskLevel.low;
}

-- Two files, of which only the first fits into forty characters.
abbrev a_patch : Text
a_patch = codes "diff --git a/x b/x\n+a\ndiff --git a/y b/y\n+bbbbbbbbbbbbbbbbbbbbbbbbbbbbbb"

cap_patch-bound_example : length (cap_patch a_patch 40).patch ≤ 40
cap_patch-bound_example = cap_patch-bound a_patch 40 (omega arith)

cap_patch-Honest_example : Honest (split_patch_by_file a_patch) (cap_patch a_patch 40)
cap_patch-Honest_example = cap_patch-Honest a_patch 40 (omega arith) (omega arith)

split_patch-rejoins_example : join_lines (texts (split_patch_by_file a_patch)) ≡ a_patch
split_patch-rejoins_example = split_patch-rejoins a_patch

cap_patch_test : (cap_patch a_patch 40).omitted_files ≡ codes "y" ∷ []
unfolding cap_patch
cap_patch_test = refl

abbrev fails : Ran
fails = returned (PipelineOutcome.error "previewer config error: acme/api: no runner" true)

process_leased-Settles_example :
    Settles running_row
      (settled_row default_options no_options 2_100 fails running_row)
      (running_row ∷ [])
      (process_leased default_options no_options a_lease (λ req. fails) 2_100 (running_row ∷ []))
process_leased-Settles_example =
    process_leased-Settles default_options no_options a_lease (λ req. fails) 2_100
      (running_row ∷ []) running_row running-IsValid refl

-- Each round leases at 2000 and settles at 2100 under a UUID of its own.
abbrev round : ℕ → Round
round uuid = record {
  leased_at = 2_000;
  uuid = uuid;
  make_deps = λ repo. inr (λ req. returned PipelineOutcome.duplicate);
  settled_at = 2_100;
}
