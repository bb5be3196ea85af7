-- ===== src/Context/Assess.antt =====
-- src/context/assess.ts: which part of a pack is taken from the repository, which is written anew, and
-- which is a mixture. The scores are floats: of a document the model has what the source compares,
-- whether its score reaches the threshold and whether it reaches 0.4. The assessments that are only
-- reported are left out.
use previewer.Prelude.{
  Bool, true, false, not, ◌&&◌, Option, none, some, List, [], ◌∷◌, ◌++◌, map, keep, if◌then◌else◌,
}
use previewer.Core.Text.{Text}
use previewer.Context.Pack.{Artifact}

pub record DiscoveredDoc : Type 0 where
  pub path : Text
  pub nested : Bool
  pub excerpt : Text

-- The documents of the checkout that the plans read; `nested` above is the type `agents-nested`.
pub record OurSchema : Type 0 where
  pub routing : Option DiscoveredDoc
  pub profiles : Option DiscoveredDoc
  pub invariants : Option DiscoveredDoc
  pub security_baseline : Option DiscoveredDoc
  pub subsystems : List DiscoveredDoc

pub record Discovery : Type 0 where
  pub found : List DiscoveredDoc
  pub root_agents : Option DiscoveredDoc
  pub claude_md : Option DiscoveredDoc
  pub readme : Option DiscoveredDoc
  pub nested_agents : List DiscoveredDoc
  pub reviewer_routing : Option DiscoveredDoc
  pub reviewer_profiles : List DiscoveredDoc
  pub comment_template : Option DiscoveredDoc
  pub security_doc : Option DiscoveredDoc
  pub invariant_docs : List DiscoveredDoc
  pub our_schema : OurSchema

pub data ArtifactDecision : Type 0 where
  ingest augment generate : ArtifactDecision

pub record ArtifactPlan : Type 0 where
  pub artifact : Artifact
  pub decision : ArtifactDecision
  pub source : Option DiscoveredDoc
  pub sources : Option (List DiscoveredDoc)

-- The comparisons of `decide`
pub record Scores : Type 0 where
  pub reaches : DiscoveredDoc → Bool
  pub is_usable : DiscoveredDoc → Bool

decide : Scores → DiscoveredDoc → ArtifactDecision
decide scores doc =
    if scores.reaches doc then ingest else if scores.is_usable doc then augment else generate

abbrev pub or_else : Option DiscoveredDoc → Option DiscoveredDoc → Option DiscoveredDoc
or_else none b = b
or_else (some d) b = some d

abbrev plan_of : Artifact → ArtifactDecision → Option DiscoveredDoc → ArtifactPlan
plan_of artifact decision source = record {
  artifact = artifact;
  decision = decision;
  source = source;
  sources = none;
}

abbrev pub one_of : List DiscoveredDoc → Option (List DiscoveredDoc)
one_of [] = none
one_of (d ∷ ds) = some (d ∷ ds)

guide_plan : Scores → Option DiscoveredDoc → ArtifactPlan
unfolding decide
guide_plan scores none = plan_of Artifact.repo_guide generate none
guide_plan scores (some doc) = plan_of Artifact.repo_guide (decide scores doc) (some doc)

subsystems_plan : List DiscoveredDoc → List DiscoveredDoc → ArtifactPlan
subsystems_plan (d ∷ ds) nested = record (plan_of Artifact.subsystems ingest none) {
  sources = some (d ∷ ds);
}
subsystems_plan [] (d ∷ ds) = record (plan_of Artifact.subsystems ingest none) {
  sources = some (d ∷ ds);
}
subsystems_plan [] [] = plan_of Artifact.subsystems generate none

routing_plan : Option DiscoveredDoc → Option DiscoveredDoc → ArtifactPlan
routing_plan (some doc) reviewer = plan_of Artifact.routing ingest (some doc)
routing_plan none (some doc) = plan_of Artifact.routing augment (some doc)
routing_plan none none = plan_of Artifact.routing generate none

profiles_plan : Option DiscoveredDoc → List DiscoveredDoc → ArtifactPlan
profiles_plan (some doc) reviewer = plan_of Artifact.profiles ingest (some doc)
profiles_plan none (d ∷ ds) = record (plan_of Artifact.profiles augment none) {
  sources = some (d ∷ ds);
}
profiles_plan none [] = plan_of Artifact.profiles generate none

abbrev pub with_agents : List DiscoveredDoc → Option DiscoveredDoc → List DiscoveredDoc
with_agents docs none = docs
with_agents docs (some d) = docs ++ d ∷ []

invariants_plan : Option DiscoveredDoc → List DiscoveredDoc → Option DiscoveredDoc → ArtifactPlan
invariants_plan (some doc) docs agents = plan_of Artifact.invariants ingest (some doc)
invariants_plan none docs agents = record (plan_of Artifact.invariants generate none) {
  sources = one_of (with_agents docs agents);
}

baseline_plan : Option DiscoveredDoc → Option DiscoveredDoc → ArtifactPlan
baseline_plan (some doc) extra = plan_of Artifact.security_baseline ingest (some doc)
baseline_plan none extra = plan_of Artifact.security_baseline generate extra

template_plan : Option DiscoveredDoc → ArtifactPlan
template_plan (some doc) = plan_of Artifact.comment_template ingest (some doc)
template_plan none = plan_of Artifact.comment_template generate none

-- The plans of `assessArtifacts`, as the record in which the pipeline looks each of them up.
pub record Plans : Type 0 where
  pub repo_guide : ArtifactPlan
  pub subsystems : ArtifactPlan
  pub routing : ArtifactPlan
  pub profiles : ArtifactPlan
  pub invariants : ArtifactPlan
  pub security_baseline : ArtifactPlan
  pub comment_template : ArtifactPlan

unfoldable pub assess_artifacts : Scores → Discovery → Plans
unfolding guide_plan subsystems_plan routing_plan profiles_plan invariants_plan baseline_plan
    template_plan
assess_artifacts scores d = record {
  repo_guide = guide_plan scores (or_else d.root_agents (or_else d.claude_md d.readme));
  subsystems = subsystems_plan d.our_schema.subsystems d.nested_agents;
  routing = routing_plan d.our_schema.routing d.reviewer_routing;
  profiles = profiles_plan d.our_schema.profiles d.reviewer_profiles;
  invariants = invariants_plan d.our_schema.invariants d.invariant_docs d.root_agents;
  security_baseline = baseline_plan d.our_schema.security_baseline d.security_doc;
  comment_template = template_plan d.comment_template;
}

abbrev pub plan_list : Plans → List ArtifactPlan
plan_list p =
    p.repo_guide ∷ p.subsystems ∷ p.routing ∷ p.profiles ∷ p.invariants ∷ p.security_baseline
    ∷ p.comment_template ∷ []

-- `MODEL_ARTIFACTS`
abbrev pub is_model_artifact : Artifact → Bool
is_model_artifact Artifact.repo_guide = true
is_model_artifact Artifact.subsystems = true
is_model_artifact Artifact.routing = true
is_model_artifact Artifact.profiles = true
is_model_artifact Artifact.invariants = true
is_model_artifact _ = false

abbrev is_ingest : ArtifactDecision → Bool
is_ingest ingest = true
is_ingest _ = false

unfoldable pub plan_needs_model : ArtifactPlan → Bool
plan_needs_model p = not (is_ingest p.decision) && is_model_artifact p.artifact

-- The parts that the generator is asked for.
unfoldable pub generation_targets : Plans → List Artifact
unfolding plan_needs_model
generation_targets plans = map (λ p. p.artifact) (keep plan_needs_model (plan_list plans))
