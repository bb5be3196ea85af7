-- ===== src/Context/Onboarding.antt =====
-- The onboarding of src/context/onboarding.ts: how each part of a context pack is built, from the
-- checkout, from what the generator answers, or from the pack before. A builder answers the part and
-- the provenance that it notes.
pub mod Documents
pub mod Structured
pub mod Gate
pub mod Run
use previewer.Prelude.{
  ℕ, String, Bool, true, false, not, ◌&&◌, ◌||◌, Option, none, some, List, [], ◌∷◌, ◌++◌, any, map,
  keep, find, get_or, is_some, str_eq, if◌then◌else◌, ◌==◌,
}
use previewer.Core.Text.{Text, codes, starts_with, same_text}
use previewer.Core.Lines.{split_lines}
use previewer.Core.Split.{split_on, trim, is_empty}
use previewer.Config.Repo.{RiskLevel}
use previewer.Context.Pack.{
  Source, ingested, augmented, generated, Provenance, Route, Routing, PackProfile, Profiles,
  InvariantStatus, confirmed, needs_confirmation, Invariant, SecurityBaseline, SubsystemGuide,
  RiskEntry, ContextPack,
}
use previewer.Context.Pack.Guides.{parse_subsystem_guide}
use previewer.Context.Assess.{
  DiscoveredDoc, ArtifactDecision, ingest, augment, generate, ArtifactPlan,
}

-- What the checkout holds: `readMaybe`, and `readYaml` for each kind of file.
pub record Checkout : Type 0 where
  pub read : Text → Option Text
  pub read_routing : Text → Option Routing
  pub read_profiles : Text → Option Profiles
  pub read_invariants : Text → Option (List Invariant)
  pub read_baseline : Text → Option SecurityBaseline

-- What the generator answers.
pub record GeneratedArtifacts : Type 0 where
  pub repo_guide : Option Text
  pub subsystems : Option (List SubsystemGuide)
  pub routing : Option Routing
  pub profiles : Option Profiles
  pub invariants : Option (List Invariant)
  pub risk_map : Option (List RiskEntry)

pub record Module : Type 0 where
  pub name : Text
  pub path : Text
  pub risk : RiskLevel

pub record RunOptions : Type 0 where
  pub persist : Option Bool
  pub confirm_invariants : Bool
  pub approved_by : Option String

-- A part of the pack, with the provenance that the builder notes for it.
abbrev pub Built {ℓ} : Type ℓ → Type ℓ
Built A = A × Option Provenance

abbrev pub prov_for : ArtifactDecision → Source
prov_for ingest = ingested
prov_for augment = augmented
prov_for generate = generated

abbrev pub taken_from : Text → Option Provenance
taken_from path = some (record {
  source = ingested;
  from = some path;
  model = none;
  confidence = none;
  approved_by = none;
})

abbrev pub noted : Source → Option Text → Option String → ℕ → Option Provenance
noted source from model confidence = some (record {
  source = source;
  from = from;
  model = model;
  confidence = some confidence;
  approved_by = none;
})

abbrev pub path_of : Option DiscoveredDoc → Option Text
path_of none = none
path_of (some d) = some d.path

-- The source of a plan that ingests one document.
abbrev pub ingested_doc : ArtifactPlan → Option DiscoveredDoc
ingested_doc plan = elim plan.decision [ ingest ↦ plan.source | _ ↦ none ]

-- A text that is missing or empty counts as none.
abbrev pub non_empty : Option Text → Option Text
non_empty (some (c ∷ cs)) = some (c ∷ cs)
non_empty _ = none

-- What `parse` makes of the document that the plan ingests.
abbrev pub ingested_from {ℓ} : {A : Type ℓ} → (Text → Option A) → ArtifactPlan → Option (A × Text)
ingested_from parse plan = elim (ingested_doc plan) [
  | none ↦ none
  | some d ↦ elim (parse d.path) [ none ↦ none | some a ↦ some (a, d.path) ]
]

abbrev pub joined : List Text → Text
joined [] = []
joined (p ∷ []) = p
joined (p ∷ q ∷ ps) = p ++ b',' ∷ b' ' ∷ joined (q ∷ ps)

abbrev pub doc_paths : List DiscoveredDoc → Text
doc_paths docs = joined (map (λ d. d.path) docs)

abbrev pub unless_empty {ℓ} : {A : Type ℓ} → List A → Option Provenance → Option Provenance
unless_empty [] p = none
unless_empty (x ∷ xs) p = p
