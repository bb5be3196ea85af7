-- ===== src/Context/Pack/Loading.antt =====
-- `loadPack` of src/context/pack.ts: what is read from the files is checked and assembled.
use previewer.Prelude.{
  String, Bool, ◌⊎◌, inl, inr, Option, none, some, List, [], ◌∷◌, is_some, find, not, get_or,
}
use previewer.Core.Text.{Text}
use previewer.Core.Failure.{Thrown}
use previewer.Context.Pack.{
  Route, Routing, Profiles, Invariant, SecurityBaseline, SubsystemGuide, RiskEntry, PackManifest,
  ContextPack,
}

-- What each file of the pack's directory gives: for the five that are required, what reading,
-- parsing and validating throws or answers; for the others, none where there is no file.
pub record PackFiles : Type 0 where
  pub manifest : Thrown ⊎ PackManifest
  pub routing : Thrown ⊎ Routing
  pub profiles : Thrown ⊎ Profiles
  pub invariants : Thrown ⊎ List Invariant
  pub security_baseline : Thrown ⊎ SecurityBaseline
  pub repo_guide : Option Text
  pub comment_template : Option Text
  pub subsystems : List SubsystemGuide
  pub risk_map : Option (Thrown ⊎ List RiskEntry)

-- Why a pack does not load. The first and the last two are a `ConfigError`, with the text left out.
pub data PackError : Type 0 where
  invalid_pack : Thrown → PackError
  invalid_risk_map : Thrown → PackError
  unknown_profile : String → String → PackError
  undefined_mandatory : String → PackError

pub data Loaded {ℓ} (A : Type ℓ) : Type ℓ where
  loaded : A → Loaded A
  failed : PackError → Loaded A

infixl 5 ◌>>=◌
abbrev pub ◌>>=◌ {ℓ κ} : {A : Type ℓ} {B : Type κ} → Loaded A → (A → Loaded B) → Loaded B
loaded a >>= f = f a
failed e >>= f = failed e

abbrev required {ℓ} : {A : Type ℓ} → Thrown ⊎ A → Loaded A
required (inl err) = failed (invalid_pack err)
required (inr a) = loaded a

abbrev read_risk_map : Option (Thrown ⊎ List RiskEntry) → Loaded (List RiskEntry)
read_risk_map none = loaded []
read_risk_map (some (inl err)) = failed (invalid_risk_map err)
read_risk_map (some (inr entries)) = loaded entries

abbrev pub defined : Profiles → String → Bool
defined profiles p = is_some (profiles p)

-- The first name of the list that has no profile.
abbrev pub undefined_in : Profiles → List String → Option String
undefined_in profiles = find (λ p. not (defined profiles p))

-- The loop over the routes
unfoldable pub undefined_route : Profiles → List Route → Option PackError
undefined_route profiles [] = none
undefined_route profiles (r ∷ rs) = elim (undefined_in profiles r.activate_profiles) [
  | some p ↦ some (unknown_profile r.name p)
  | none ↦ undefined_route profiles rs
]

-- The check of the consistency: every profile that is named is defined.
unfoldable pub inconsistency : Routing → Profiles → Option PackError
unfolding undefined_route
inconsistency routing profiles = elim (undefined_route profiles routing.routes) [
  | some e ↦ some e
  | none ↦ elim (undefined_in profiles routing.mandatory_profiles) [
    | some p ↦ some (undefined_mandatory p)
    | none ↦ none
  ]
]

abbrev pub consistent : Routing → Profiles → Loaded (Unit {0})
consistent routing profiles = elim (inconsistency routing profiles) [
  | none ↦ loaded tt
  | some e ↦ failed e
]

unfoldable pub load_pack : PackFiles → Loaded ContextPack
load_pack files = do
  manifest ← required files.manifest
  routing ← required files.routing
  profiles ← required files.profiles
  invariants ← required files.invariants
  baseline ← required files.security_baseline
  risk_map ← read_risk_map files.risk_map
  _ ← consistent routing profiles
  loaded (record {
    manifest = manifest;
    repo_guide = get_or files.repo_guide [];
    subsystems = files.subsystems;
    routing = routing;
    profiles = profiles;
    invariants = invariants;
    security_baseline = baseline;
    comment_template = get_or files.comment_template [];
    risk_map = risk_map;
  })
