-- ===== src/Context/Onboarding/Structured.antt =====
-- The structured parts, and `reconcileRoutingProfiles`.
pub mod Consistency
use previewer.Prelude.{
  String, false, Option, none, some, List, [], ◌∷◌, ◌++◌, any, map, keep, is_some, str_eq,
  if◌then◌else◌,
}
use previewer.Core.Text.{Text, codes}
use previewer.Context.Pack.{generated, Route, Routing, PackProfile, Profiles, SecurityBaseline}
use previewer.Context.Assess.{ArtifactPlan}
use previewer.Context.Onboarding.{
  Checkout, Built, prov_for, taken_from, noted, path_of, ingested_from,
}

-- `buildRouting` and `buildProfiles`: the document, the generator, the pack before, the default.
unfoldable pub build_structured {ℓ} :
    {A : Type ℓ}
    → (Text → Option A)
    → ArtifactPlan
    → Option A
    → Option A
    → A
    → Option String
    → Built A
build_structured parse plan gen previous default model = elim (ingested_from parse plan) [
  | some (a, path) ↦ (a, taken_from path)
  | none ↦ elim gen [
    | some a ↦ (a, noted (prov_for plan.decision) (path_of plan.source) model 5)
    | none ↦ elim previous [
      | some a ↦ (a, taken_from (codes "previous pack"))
      | none ↦ (default, noted generated (some (codes "default")) none 2)
    ]
  ]
]

-- The checks that the schema fills in by default.
abbrev pub default_checks : List String
default_checks =
    "data_leaks" ∷ "unauthorized_access" ∷ "dangerous_external_calls" ∷ "auth_session_regressions"
    ∷ "privacy_boundary_leaks" ∷ "insecure_reads_writes" ∷ "analytics_data_exfiltration"
    ∷ "supply_chain_secret_exposure" ∷ []

-- `extra` is `security.extra` of the repository's configuration, and empty without one.
unfoldable pub build_security_baseline :
    Checkout → ArtifactPlan → List String → Built SecurityBaseline
build_security_baseline checkout plan extra = elim (ingested_from checkout.read_baseline plan) [
  | some (parsed, path) ↦ (parsed, taken_from path)
  | none ↦ (
    record { always_check = default_checks; extra = extra },
    noted generated
        (some (elim plan.source [
          | none ↦ codes "platform default + repo.security.extra"
          | some d ↦ codes "platform default + " ++ d.path
        ]))
        none 9,
  )
]

abbrev pub baseline_name : String
baseline_name = "security-baseline"

abbrev pub default_baseline_profile : PackProfile
default_baseline_profile = record {
  focus = "data_leak" ∷ "authz" ∷ "session" ∷ [];
  docs = "AGENTS.md" ∷ [];
  tests = [];
  run_tests = false;
}

-- The profiles, with the baseline's where it is missing.
unfoldable pub with_baseline : Profiles → Profiles
with_baseline profiles name = elim (profiles name) [
  | some p ↦ some p
  | none ↦ if str_eq name baseline_name then some default_baseline_profile else none
]

-- `reconcileRoutingProfiles`
unfoldable pub reconcile_routing_profiles : Routing → Profiles → Routing × Profiles
unfolding with_baseline
reconcile_routing_profiles routing profiles =
    let known = with_baseline profiles in
    let mandatory = keep (λ p. is_some (known p)) routing.mandatory_profiles in
    (
      record routing {
        mandatory_profiles =
            if any (str_eq baseline_name) mandatory then mandatory else baseline_name ∷ mandatory;
        routes =
            map
              (λ (r : Route). record r {
                activate_profiles = keep (λ p. is_some (known p)) r.activate_profiles;
              })
              routing.routes;
      },
      known,
    )
