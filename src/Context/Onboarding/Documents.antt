-- ===== src/Context/Onboarding/Documents.antt =====
-- The parts that are texts: the guide of the repository, the subsystems and the comment template.
use previewer.Prelude.{
  String, true, false, not, ◌&&◌, Option, none, some, List, [], ◌∷◌, ◌++◌, map, find, get_or,
  if◌then◌else◌,
}
use previewer.Core.Text.{Text, codes, starts_with, same_text}
use previewer.Core.Lines.{split_lines}
use previewer.Core.Split.{split_on, trim, is_empty}
use previewer.Config.Repo.{RiskLevel}
use previewer.Context.Pack.{generated, SubsystemGuide}
use previewer.Context.Pack.Guides.{parse_subsystem_guide}
use previewer.Context.Assess.{DiscoveredDoc, ingest, ArtifactPlan}
use previewer.Context.Onboarding.{
  Checkout, GeneratedArtifacts, Module, Built, prov_for, taken_from, noted, path_of, non_empty,
  ingested_from, doc_paths, unless_empty,
}

unfoldable pub build_repo_guide :
    Checkout → ArtifactPlan → GeneratedArtifacts → Option String → Built Text
build_repo_guide checkout plan gen model =
    elim (ingested_from (λ p. non_empty (checkout.read p)) plan) [
      | some (content, path) ↦ (content, taken_from path)
      | none ↦ elim (non_empty gen.repo_guide) [
        | some guide ↦ (guide, noted (prov_for plan.decision) (path_of plan.source) model 6)
        | none ↦ ([], none)
      ]
    ]

abbrev last_part : List Text → Text → Text
last_part [] d = d
last_part (p ∷ []) d = if is_empty p then d else p
last_part (p ∷ q ∷ ps) d = last_part (q ∷ ps) d

drop_suffix : Text → Text → Text
drop_suffix suffix [] = []
drop_suffix suffix (c ∷ cs) =
    let rest = drop_suffix suffix cs in if same_text suffix (c ∷ cs) then [] else c ∷ rest

-- `subsystemNameFromAgents` of src/context/discover.ts: the name and the directory.
subsystem_name_from_agents : Text → Text × Text
unfolding drop_suffix
subsystem_name_from_agents rel =
    let dir = drop_suffix (codes "/AGENTS.md") rel in (last_part (split_on b'/' dir) dir, dir)

-- `firstProse`
first_prose : Text → Text
first_prose content =
    get_or
      (find
        (λ l.
          not (is_empty l)
          && not (starts_with (codes "#") l)
          && not (starts_with (codes "**") l)
          && not (starts_with (codes ">") l)
          && not (starts_with (codes "-") l))
        (map trim (split_lines content)))
      []

abbrev first_part : List Text → Text → Text
first_part [] d = d
first_part (p ∷ ps) d = p

risk_of_path : List Module → Text → RiskLevel
risk_of_path modules path =
    elim (find (λ (m : Module). same_text m.path (first_part (split_on b'/' path) path)) modules) [
      | none ↦ RiskLevel.medium
      | some m ↦ m.risk
    ]

guide_of : List Module → DiscoveredDoc → Text → SubsystemGuide
unfolding subsystem_name_from_agents first_prose risk_of_path
guide_of modules doc content = elim doc.nested [
  | true ↦
      let (name, path) = subsystem_name_from_agents doc.path in
      record {
        name = name;
        path = path;
        summary = first_prose content;
        risk = risk_of_path modules path;
        body = content;
      }
  | false ↦
      parse_subsystem_guide (drop_suffix (codes ".md") (last_part (split_on b'/' doc.path) []))
        content
]

guides_of : Checkout → List Module → List DiscoveredDoc → List SubsystemGuide
unfolding guide_of
guides_of checkout modules [] = []
guides_of checkout modules (d ∷ ds) = elim (non_empty (checkout.read d.path)) [
  | none ↦ guides_of checkout modules ds
  | some content ↦ guide_of modules d content ∷ guides_of checkout modules ds
]

abbrev risk_word : RiskLevel → Text
risk_word RiskLevel.low = codes "low"
risk_word RiskLevel.medium = codes "medium"
risk_word RiskLevel.high = codes "high"

stub_of : Module → SubsystemGuide
stub_of m = record {
  name = m.name;
  path = m.path;
  summary = codes "Module " ++ (m.name ++ (codes " (risk " ++ (risk_word m.risk ++ codes ").")));
  risk = m.risk;
  body = [];
}

-- The sources of a plan that ingests several documents.
abbrev ingested_docs : ArtifactPlan → List DiscoveredDoc
ingested_docs plan = elim plan.decision [ ingest ↦ get_or plan.sources [] | _ ↦ [] ]

unfoldable pub build_subsystems :
    Checkout
    → ArtifactPlan
    → GeneratedArtifacts
    → List Module
    → Option String
    → Built (List SubsystemGuide)
unfolding guides_of stub_of
build_subsystems checkout plan gen modules model =
    elim (guides_of checkout modules (ingested_docs plan)) [
      | g ∷ gs ↦ (g ∷ gs, taken_from (doc_paths (get_or plan.sources [])))
      | [] ↦ elim (get_or gen.subsystems []) [
        | g ∷ gs ↦ (g ∷ gs, noted (prov_for plan.decision) none model 5)
        | [] ↦
            let stubs = map stub_of modules in
            (stubs, unless_empty stubs (noted generated (some (codes "inventory modules")) none 2))
      ]
    ]

-- `default_template` is `DEFAULT_COMMENT_TEMPLATE`.
unfoldable pub build_comment_template : Checkout → ArtifactPlan → Text → Built Text
build_comment_template checkout plan default_template =
    elim (ingested_from (λ p. non_empty (checkout.read p)) plan) [
      | some (content, path) ↦ (content, taken_from path)
      | none ↦ (
        default_template,
        some (record {
          source = generated;
          from = some (codes "platform default");
          model = none;
          confidence = none;
          approved_by = none;
        }),
      )
    ]
