-- ===== src/Context/Onboarding/Run/Outcome.antt =====
-- What a run writes.
use previewer.Prelude.{
  ◌≡◌, refl, ap, String, Bool, true, false, inl, Option, none, some, List, ◌∷◌, any, get_or,
  is_some, str_eq, if◌then◌else◌,
}
use previewer.Core.Text.{Text}
use previewer.Core.Failure.{Thrown}
use previewer.Context.Pack.{Artifact, ContextPack}
use previewer.Context.Pack.Loading.{loaded, inconsistency}
use previewer.Context.Assess.{ArtifactPlan, Plans, assess_artifacts, generation_targets}
use previewer.Context.Onboarding.{RunOptions, ingested_from}
use previewer.Context.Onboarding.Structured.{
  baseline_name, build_structured, reconcile_routing_profiles,
}
use previewer.Context.Onboarding.Structured.Consistency.{
  reconcile_routing_profiles-consistent, reconcile_routing_profiles-same,
}
use previewer.Context.Onboarding.Gate.{confirmed_of}
use previewer.Context.Onboarding.Gate.Approval.{build_invariants-kept}
use previewer.Context.Onboarding.Run.{
  OnboardingDeps, needs_review, Attempt, Written, no_artifacts, attempt, next_version,
  load_previous, assemble, run,
}

-- A pack that `loadPack` takes, with the baseline defined and mandatory.
pub record IsConsistent (pack : ContextPack) : Type 0 where
  pub checked : inconsistency pack.routing pack.profiles ≡ none
  pub mandatory : any (str_eq baseline_name) pack.mandatory_profiles ≡ true

-- What a run that persists writes: nothing is written otherwise.
pub data Writes (P : ContextPack → Type 0) : Option ContextPack → Type 0 where
  nothing : Writes P none
  pack : (p : ContextPack) → P p → Writes P (some p)

-- The pack is consistent, and its version is the next one.
pub record IsNext (before : Option ContextPack) (p : ContextPack) : Type 0 where
  pub consistent : IsConsistent p
  pub version : p.manifest.version ≡ next_version before

assemble-IsNext :
    (deps : OnboardingDeps) (opts : RunOptions) (plans : Plans) (tried : Attempt)
    → IsNext (load_previous deps.before) (assemble deps opts plans tried)
unfolding assemble
assemble-IsNext deps opts plans tried =
    let (checked, mandatory) = reconcile_routing_profiles-consistent _ _ in
    record { consistent = record { checked = checked; mandatory = mandatory }; version = refl }

if-Writes :
    (P : ContextPack → Type 0) (b : Bool) (w v : Written)
    → Writes P w.pack
    → Writes P v.pack
    → Writes P (if b then w else v).pack
if-Writes P true w v held other = held
if-Writes P false w v held other = other

-- Whatever the repository holds and the generator answers, the pack that a run writes is one that
-- `loadPack` takes, with the security baseline mandatory, and its version follows that of the pack
-- before.
pub run-Writes :
    (deps : OnboardingDeps) (opts : RunOptions)
    → Writes (IsNext (load_previous deps.before)) (run deps opts).0.pack
unfolding run
run-Writes deps opts =
    if-Writes _ (get_or opts.persist true) _ _ (pack _ (assemble-IsNext deps opts _ _)) nothing

build_structured-previous :
    {A : Type 0} (parse : Text → Option A) (plan : ArtifactPlan) (a default : A)
    (model : Option String)
    → ingested_from parse plan ≡ none
    → (build_structured parse plan none (some a) default model).0 ≡ a
unfolding build_structured
build_structured-previous parse plan a default model written = rw (written, build_structured) refl

-- What a pack keeps of the one before.
pub record Keeps (before p : ContextPack) : Type 0 where
  pub routing : p.routing ≡ before.routing
  pub profiles : p.profiles ≡ before.profiles
  pub invariants : p.invariants ≡ confirmed_of (some before)

module _ (deps : OnboardingDeps) (opts : RunOptions) (before : ContextPack) (err : Thrown)
    (t : Artifact) (ts : List Artifact) where
  abbrev plans : Plans
  plans = assess_artifacts deps.scores deps.discovery

  assemble-Keeps :
      deps.before ≡ some (loaded before)
      → IsConsistent before
      → is_some (before.profiles baseline_name) ≡ true
      → ingested_from deps.checkout.read_routing plans.routing ≡ none
      → ingested_from deps.checkout.read_profiles plans.profiles ≡ none
      → ingested_from deps.checkout.read_invariants plans.invariants ≡ none
      → Keeps before (
          assemble deps opts plans
            (record { artifacts = no_artifacts; model = none; tokens = 0; failed = true }))
  unfolding assemble
  assemble-Keeps there c known routing profiles invariants =
      let same =
        reconcile_routing_profiles-same before.routing before.profiles c.checked known
          c.mandatory in
      let whole : reconcile_routing_profiles _ _ ≡ (before.routing, before.profiles) =
        rw
          (
            there,
            build_structured-previous deps.checkout.read_routing plans.routing before.routing _ none
                routing,
            build_structured-previous deps.checkout.read_profiles plans.profiles before.profiles _
                none profiles,
          )
          same in
      record {
        routing = ap (λ o. o.0) whole;
        profiles = ap (λ o. o.1) whole;
        invariants = rw there (
            build_invariants-kept deps.checkout plans.invariants no_artifacts (some before) opts
              none refl invariants);
      }

  failed_attempt :
      deps.generate (t ∷ ts) ≡ inl err
      → generation_targets plans ≡ t ∷ ts
      → attempt deps.generate (generation_targets plans)
        ≡ record { artifacts = no_artifacts; model = none; tokens = 0; failed = true }
  failed_attempt threw asked = rw (asked, threw) refl

  -- After a generation that throws, and where the routing, the profiles and the rules are not taken from
  -- files of the repository, the pack that is written has the routing and the profiles of the pack
  -- before, if that was consistent and had the baseline, and of its rules exactly the confirmed ones; the
  -- run asks for a review. Of the guide and the subsystems nothing is said.
  pub run_failed-Keeps :
      deps.before ≡ some (loaded before)
      → IsConsistent before
      → is_some (before.profiles baseline_name) ≡ true
      → ingested_from deps.checkout.read_routing plans.routing ≡ none
      → ingested_from deps.checkout.read_profiles plans.profiles ≡ none
      → ingested_from deps.checkout.read_invariants plans.invariants ≡ none
      → generation_targets plans ≡ t ∷ ts
      → deps.generate (t ∷ ts) ≡ inl err
      → Writes (Keeps before) (run deps opts).0.pack × ((run deps opts).1.status ≡ needs_review)
  unfolding run
  run_failed-Keeps there c known routing profiles invariants asked threw =
      let kept = assemble-Keeps there c known routing profiles invariants in
      rw (failed_attempt threw asked)
        (if-Writes (Keeps before) (get_or opts.persist true) _ _ (pack _ kept) nothing, refl)
