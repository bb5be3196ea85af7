-- ===== src/Context/Onboarding/Run.antt =====
-- `OnboardingPipeline.run`: inventory, plans, generation, assembly and what is written.
pub mod Outcome
use previewer.Prelude.{
  ℕ, ◌+◌, String, Bool, true, false, not, ◌&&◌, ◌||◌, ◌⊎◌, inl, inr, Option, none, some, List, [],
  ◌∷◌, ◌++◌, any, map, keep, get_or, if◌then◌else◌,
}
use previewer.Core.Text.{Text}
use previewer.Core.Failure.{Thrown}
use previewer.Context.Pack.{
  Artifact, Source, generated, Provenance, Routing, Profiles, Invariant, RiskEntry, ContextPack,
}
use previewer.Context.Pack.Loading.{Loaded, loaded, failed}
use previewer.Context.Assess.{
  Discovery, Scores, ArtifactDecision, ArtifactPlan, Plans, assess_artifacts, plan_list,
  generation_targets,
}
use previewer.Context.Onboarding.{Checkout, GeneratedArtifacts, Module, RunOptions, Built}
use previewer.Context.Onboarding.Documents.{
  build_repo_guide, build_subsystems, build_comment_template,
}
use previewer.Context.Onboarding.Structured.{
  build_structured, build_security_baseline, reconcile_routing_profiles,
}
use previewer.Context.Onboarding.Gate.{is_open, build_invariants}

pub record Generation : Type 0 where
  pub artifacts : GeneratedArtifacts
  pub model : String
  pub tokens : ℕ

-- What a run is given: the checkout with its inventory and documents, the generator, the pack that is
-- there (`loadPack` of the destination, and none without a manifest), the repository's configuration
-- if there is one, and whether it has its file.
pub record OnboardingDeps : Type 0 where
  pub checkout : Checkout
  pub modules : List Module
  pub discovery : Discovery
  pub scores : Scores
  pub generate : List Artifact → Thrown ⊎ Generation
  pub before : Option (Loaded ContextPack)
  pub default_branch : Option String
  pub security_extra : List String
  pub has_repo_yaml : Bool
  pub default_template : Text

pub data Question : Type 0 where
  generation_failed : Question
  confirm : Invariant → Question

pub data OnboardingStatus : Type 0 where
  ready needs_review : OnboardingStatus

-- The `repo.yaml` that is written where there is none.
pub record RepoYaml : Type 0 where
  pub default_branch : String
  pub pack_version : ℕ

pub record OnboardingResult : Type 0 where
  pub status : OnboardingStatus
  pub version : ℕ
  pub decisions : List (Artifact × ArtifactDecision)
  pub open_questions : List Question
  pub tokens : ℕ

-- What a run leaves behind: the pack handed to `writePack` and the new `repo.yaml`, if any.
pub record Written : Type 0 where
  pub pack : Option ContextPack
  pub repo_yaml : Option RepoYaml

-- `loadPrevious`: a pack that does not load counts as none.
abbrev pub load_previous : Option (Loaded ContextPack) → Option ContextPack
load_previous (some (loaded pack)) = some pack
load_previous _ = none

abbrev pub no_artifacts : GeneratedArtifacts
no_artifacts = record {
  repo_guide = none;
  subsystems = none;
  routing = none;
  profiles = none;
  invariants = none;
  risk_map = none;
}

-- The answer of the generator, which is asked only if there is something to generate.
pub record Attempt : Type 0 where
  pub artifacts : GeneratedArtifacts
  pub model : Option String
  pub tokens : ℕ
  pub failed : Bool

abbrev pub attempt_of : Thrown ⊎ Generation → Attempt
attempt_of (inl err) = record { artifacts = no_artifacts; model = none; tokens = 0; failed = true }
attempt_of (inr g) = record {
  artifacts = g.artifacts;
  model = some g.model;
  tokens = g.tokens;
  failed = false;
}

abbrev pub attempt : (List Artifact → Thrown ⊎ Generation) → List Artifact → Attempt
attempt generate [] = record { artifacts = no_artifacts; model = none; tokens = 0; failed = false }
attempt generate (t ∷ ts) = attempt_of (generate (t ∷ ts))

abbrev listed : Artifact → Option Provenance → List (Artifact × Provenance)
listed artifact none = []
listed artifact (some p) = (artifact, p) ∷ []

abbrev default_routing : Routing
default_routing = record {
  mandatory_profiles = "security-baseline" ∷ [];
  required_context = "AGENTS.md" ∷ [];
  routes = [];
}

abbrev routing_of : Option ContextPack → Option Routing
routing_of none = none
routing_of (some pack) = some pack.routing

abbrev profiles_of : Option ContextPack → Option Profiles
profiles_of none = none
profiles_of (some pack) = some pack.profiles

abbrev risk_map_of : Option ContextPack → List RiskEntry
risk_map_of none = []
risk_map_of (some pack) = pack.risk_map

abbrev pub next_version : Option ContextPack → ℕ
next_version none = 1
next_version (some pack) = pack.manifest.version + 1

abbrev risk_map_provenance : Option (List RiskEntry) → Option String → Option Provenance
risk_map_provenance (some (e ∷ es)) model = some (record {
  source = generated;
  from = none;
  model = model;
  confidence = some 5;
  approved_by = none;
})
risk_map_provenance _ model = none

-- The stages that assemble the pack.
unfoldable pub assemble : OnboardingDeps → RunOptions → Plans → Attempt → ContextPack
assemble deps opts plans tried =
    let previous = load_previous deps.before in
    let gen = tried.artifacts in
    let guide = build_repo_guide deps.checkout plans.repo_guide gen tried.model in
    let subsystems = build_subsystems deps.checkout plans.subsystems gen deps.modules tried.model in
    let routing =
      build_structured deps.checkout.read_routing plans.routing gen.routing (routing_of previous)
        default_routing tried.model in
    let profiles =
      build_structured deps.checkout.read_profiles plans.profiles gen.profiles
        (profiles_of previous) (λ _. none) tried.model in
    let reconciled = reconcile_routing_profiles routing.0 profiles.0 in
    let invariants =
      build_invariants deps.checkout plans.invariants gen previous opts tried.model in
    let baseline =
      build_security_baseline deps.checkout plans.security_baseline deps.security_extra in
    let template =
      build_comment_template deps.checkout plans.comment_template deps.default_template in
    record {
      manifest = record {
        version = next_version previous;
        provenance =
            listed Artifact.repo_guide guide.1
            ++ (listed Artifact.subsystems subsystems.1
                ++ (listed Artifact.routing routing.1
                    ++ (listed Artifact.profiles profiles.1
                        ++ (listed Artifact.invariants invariants.1
                            ++ (listed Artifact.security_baseline baseline.1
                                ++ (listed Artifact.comment_template template.1
                                    ++ listed Artifact.risk_map
                                        (risk_map_provenance gen.risk_map tried.model)))))));
      };
      repo_guide = guide.0;
      subsystems = subsystems.0;
      routing = reconciled.0;
      profiles = reconciled.1;
      invariants = invariants.0;
      security_baseline = baseline.0;
      comment_template = template.0;
      risk_map = get_or gen.risk_map (risk_map_of previous);
    }

abbrev pub questions : Bool → List Invariant → List Question
questions failed_run waiting =
    if failed_run then generation_failed ∷ map confirm waiting else map confirm waiting

abbrev pub status_of : List Question → OnboardingStatus
status_of [] = ready
status_of (q ∷ qs) = needs_review

unfoldable pub run : OnboardingDeps → RunOptions → Written × OnboardingResult
run deps opts =
    let plans = assess_artifacts deps.scores deps.discovery in
    let tried = attempt deps.generate (generation_targets plans) in
    let pack = assemble deps opts plans tried in
    let asked = questions tried.failed (keep (λ i. is_open i.status) pack.invariants) in
    (
      if get_or opts.persist true
          then record {
            pack = some pack;
            repo_yaml =
                if deps.has_repo_yaml
                then none
                else some (record {
                  default_branch = get_or deps.default_branch "main";
                  pack_version = pack.manifest.version;
                });
          }
          else record { pack = none; repo_yaml = none },
      record {
        status = status_of asked;
        version = pack.manifest.version;
        decisions = map (λ (p : ArtifactPlan). (p.artifact, p.decision)) (plan_list plans);
        open_questions = asked;
        tokens = tried.tokens;
      },
    )
