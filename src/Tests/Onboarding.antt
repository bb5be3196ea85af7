-- ===== src/Tests/Onboarding.antt =====
-- The onboarding at concrete inputs.
use previewer.Prelude.{◌≡◌, refl, true, false, inl, none, some, [], ◌∷◌, str_eq, if◌then◌else◌}
use previewer.Core.Text.{codes, lower, starts_with, strip_prefix}
use previewer.Core.Lines.{split_lines}
use previewer.Core.Split.{trim, trim_start}
use previewer.Core.Failure.{thrown_text}
use previewer.Config.Repo.{RiskLevel}
use previewer.Context.Pack.{Artifact, Invariant, confirmed, needs_confirmation, ContextPack}
use previewer.Context.Pack.Guides.{parse_subsystem_guide}
use previewer.Context.Pack.Loading.{loaded, inconsistency}
use previewer.Context.Assess.{
  Discovery, ArtifactPlan, generate, assess_artifacts, generation_targets,
}
use previewer.Context.Onboarding.{Checkout, GeneratedArtifacts, RunOptions}
use previewer.Context.Onboarding.Structured.{default_baseline_profile}
use previewer.Context.Onboarding.Gate.{build_invariants, confirmed_of}
use previewer.Context.Onboarding.Gate.Approval.{confirms, build_invariants-unapproved}
use previewer.Context.Onboarding.Run.{OnboardingDeps, needs_review, no_artifacts, run}
use previewer.Context.Onboarding.Run.Outcome.{Writes, IsNext, Keeps, run-Writes, run_failed-Keeps}

abbrev old_rule : Invariant
old_rule = record {
  id = "no-secrets";
  rule = "No secrets in logs";
  applies_to = codes "**" ∷ [];
  status = confirmed;
}

abbrev new_rule : Invariant
new_rule = record {
  id = "idempotent";
  rule = "Handlers can be repeated";
  applies_to = codes "src/**" ∷ [];
  status = confirmed;
}

abbrev a_pack : ContextPack
a_pack = record {
  manifest = record { version = 3; provenance = [] };
  repo_guide = codes "Guide";
  subsystems = [];
  routing = record {
    mandatory_profiles = "security-baseline" ∷ [];
    required_context = "AGENTS.md" ∷ [];
    routes = [];
  };
  profiles = λ n. if str_eq n "security-baseline" then some default_baseline_profile else none;
  invariants = old_rule ∷ [];
  security_baseline = record { always_check = []; extra = [] };
  comment_template = [];
  risk_map = [];
}

abbrev empty_checkout : Checkout
empty_checkout = record {
  read = λ _. none;
  read_routing = λ _. none;
  read_profiles = λ _. none;
  read_invariants = λ _. none;
  read_baseline = λ _. none;
}

abbrev no_documents : Discovery
no_documents = record {
  found = [];
  root_agents = none;
  claude_md = none;
  readme = none;
  nested_agents = [];
  reviewer_routing = none;
  reviewer_profiles = [];
  comment_template = none;
  security_doc = none;
  invariant_docs = [];
  our_schema = record {
    routing = none;
    profiles = none;
    invariants = none;
    security_baseline = none;
    subsystems = [];
  };
}

abbrev deps : OnboardingDeps
deps = record {
  checkout = empty_checkout;
  modules = [];
  discovery = no_documents;
  scores = record { reaches = λ _. true; is_usable = λ _. true };
  generate = λ _. inl (thrown_text "not logged in");
  before = some (loaded a_pack);
  default_branch = none;
  security_extra = [];
  has_repo_yaml = true;
  default_template = codes "## Automated review";
}

abbrev opts : RunOptions
opts = record { persist = none; confirm_invariants = false; approved_by = none }

run-Writes_example : Writes (IsNext (some a_pack)) (run deps opts).0.pack
run-Writes_example = run-Writes deps opts

run_failed-Keeps_example :
    Writes (Keeps a_pack) (run deps opts).0.pack × ((run deps opts).1.status ≡ needs_review)
unfolding assess_artifacts generation_targets inconsistency
run_failed-Keeps_example =
    run_failed-Keeps deps opts a_pack (thrown_text "not logged in") Artifact.repo_guide
      (Artifact.subsystems ∷ Artifact.routing ∷ Artifact.profiles ∷ Artifact.invariants ∷ []) refl
      (record { checked = refl; mandatory = refl }) refl refl refl refl refl refl

abbrev a_plan : ArtifactPlan
a_plan = record {
  artifact = Artifact.invariants;
  decision = generate;
  source = none;
  sources = none;
}

abbrev two_rules : GeneratedArtifacts
two_rules = record no_artifacts { invariants = some (new_rule ∷ old_rule ∷ []) }

build_invariants-unapproved_example :
    confirms "idempotent"
      (build_invariants empty_checkout a_plan two_rules (some a_pack) opts none).0
    ≡ confirms "idempotent" (confirmed_of (some a_pack))
build_invariants-unapproved_example =
    build_invariants-unapproved empty_checkout a_plan two_rules (some a_pack) opts none "idempotent"
      refl refl

build_invariants_test :
    (build_invariants empty_checkout a_plan two_rules (some a_pack) opts none).0
    ≡ record new_rule { status = needs_confirmation } ∷ old_rule ∷ []
unfolding build_invariants
build_invariants_test = refl

parse_subsystem_guide_test :
    parse_subsystem_guide
      (codes "api")
      (codes "# Subsystem: api\n**Path:** `src/api` x **Risk:** High\nServes.\n")
    ≡ record {
      name = codes "api";
      path = codes "src/api";
      summary = codes "Serves.";
      risk = RiskLevel.high;
      body = codes "# Subsystem: api\n**Path:** `src/api` x **Risk:** High\nServes.\n";
    }
unfolding parse_subsystem_guide strip_prefix split_lines lower trim_start trim starts_with
parse_subsystem_guide_test = refl
