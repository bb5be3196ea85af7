-- ===== src/Context/Pack.antt =====
-- The context pack: src/config/schema/pack.ts, and `loadPack` of src/context/pack.ts.
pub mod Guides
pub mod Loading
use previewer.Prelude.{ℕ, String, Bool, Option, List, [], ◌∷◌}
use previewer.Core.Text.{Text}
use previewer.Config.Repo.{RiskLevel}

pub data Source : Type 0 where
  ingested augmented generated : Source

-- `confidence` is in tenths.
pub record Provenance : Type 0 where
  pub source : Source
  pub from : Option Text
  pub model : Option String
  pub confidence : Option ℕ
  pub approved_by : Option String

-- The parts of a pack, each with its file.
pub data Artifact : Type 0 where
  repo_guide subsystems routing profiles invariants security_baseline comment_template : Artifact
  risk_map : Artifact

pub record Route : Type 0 where
  pub name : String
  pub paths : List Text
  pub activate_profiles : List String

-- Of `Routing`, what the program reads.
pub record Routing : Type 0 where
  pub mandatory_profiles : List String
  pub required_context : List String
  pub routes : List Route

pub record PackProfile : Type 0 where
  pub focus : List String
  pub docs : List String
  pub tests : List String
  pub run_tests : Bool

-- `profiles[name]`
abbrev pub Profiles : Type 0
Profiles = String → Option PackProfile

pub data InvariantStatus : Type 0 where
  confirmed needs_confirmation rejected : InvariantStatus

pub record Invariant : Type 0 where
  pub id : String
  pub rule : String
  pub applies_to : List Text
  pub status : InvariantStatus

pub record SecurityBaseline : Type 0 where
  pub always_check : List String
  pub extra : List String

pub record SubsystemGuide : Type 0 where
  pub name : Text
  pub path : Text
  pub summary : Text
  pub risk : RiskLevel
  pub body : Text

pub record RiskEntry : Type 0 where
  pub area : String
  pub risk : RiskLevel
  pub tests : List String

-- `provenance` is a record by the names of the parts, in the order of insertion.
pub record PackManifest : Type 0 where
  pub version : ℕ
  pub provenance : List (Artifact × Provenance)

pub record ContextPack : Type 0 where
  pub manifest : PackManifest
  pub repo_guide : Text
  pub subsystems : List SubsystemGuide
  pub routing : Routing
  pub open routing use {mandatory_profiles, required_context, routes}
  pub profiles : Profiles
  pub invariants : List Invariant
  pub security_baseline : SecurityBaseline
  pub comment_template : Text
  pub risk_map : List RiskEntry
