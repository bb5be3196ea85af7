-- ===== src/Context/Onboarding/Structured/Consistency.antt =====
-- `reconcileRoutingProfiles` gives what `loadPack` accepts, and leaves alone what it accepts.
use previewer.Prelude.{
  ◌≡◌, refl, ap, String, true, none, List, [], ◌∷◌, arith, any, map, keep, str_eq, str_eq_iff,
  is_some, Bool-cases, Option-cases, inl, inr, if◌then◌else◌,
}
use mathlib.Core.Path.{fun_ext}
use previewer.Context.Pack.{Route, Routing, Profiles}
use previewer.Context.Pack.Loading.{undefined_in, undefined_route, inconsistency}
use previewer.Context.Onboarding.Structured.{
  baseline_name, with_baseline, reconcile_routing_profiles,
}

-- Names that all have a profile are none that is undefined.
undefined_in-keep :
    (profiles : Profiles) (ns : List String)
    → undefined_in profiles (keep (λ p. is_some (profiles p)) ns) ≡ none
undefined_in-keep profiles [] = refl
undefined_in-keep profiles (n ∷ ns) = ground (arith, undefined_in-keep profiles ns)

-- The routes with only the names that have a profile.
abbrev pruned : Profiles → List Route → List Route
pruned profiles = map (λ (r : Route). record r {
  activate_profiles = keep (λ p. is_some (profiles p)) r.activate_profiles;
})

undefined_route-pruned :
    (profiles : Profiles) (rs : List Route) → undefined_route profiles (pruned profiles rs) ≡ none
unfolding undefined_route
undefined_route-pruned profiles [] = refl
undefined_route-pruned profiles (r ∷ rs) =
    rw (undefined_in-keep profiles r.activate_profiles, undefined_route)
      (undefined_route-pruned profiles rs)

with_baseline-defined :
    (profiles : Profiles) → is_some (with_baseline profiles baseline_name) ≡ true
unfolding with_baseline
with_baseline-defined profiles = elim (Option-cases (profiles baseline_name)) [
  | inl e ↦ ground (arith, e, str_eq_iff baseline_name baseline_name)
  | inr (p, e) ↦ ground (arith, e)
]

inconsistency-none :
    (routing : Routing) (profiles : Profiles)
    → undefined_route profiles routing.routes ≡ none
    → undefined_in profiles routing.mandatory_profiles ≡ none
    → inconsistency routing profiles ≡ none
unfolding inconsistency
inconsistency-none routing profiles routes names = ground (arith, routes, names)

-- The baseline in front, where it is missing.
undefined_in-mandatory :
    (profiles : Profiles) (ns : List String)
    → undefined_in profiles ns ≡ none
    → is_some (profiles baseline_name) ≡ true
    → undefined_in profiles (if any (str_eq baseline_name) ns then ns else baseline_name ∷ ns)
      ≡ none
undefined_in-mandatory profiles ns h known = ground (arith, h, known)

holds-mandatory :
    (ns : List String)
    → any (str_eq baseline_name) (if any (str_eq baseline_name) ns then ns else baseline_name ∷ ns)
      ≡ true
holds-mandatory ns = ground (arith, str_eq_iff baseline_name baseline_name)

-- What is reconciled passes the check of `loadPack`: each profile that a route activates or that is
-- mandatory is defined; and the baseline is mandatory.
pub reconcile_routing_profiles-consistent :
    (routing : Routing) (profiles : Profiles)
    → let out = reconcile_routing_profiles routing profiles in
      (inconsistency out.0 out.1 ≡ none)
      × (any (str_eq baseline_name) out.0.mandatory_profiles ≡ true)
unfolding reconcile_routing_profiles
reconcile_routing_profiles-consistent routing profiles =
    let known = with_baseline profiles in
    let names = undefined_in-keep known routing.mandatory_profiles in
    (
      inconsistency-none (reconcile_routing_profiles routing profiles).0 known
          (undefined_route-pruned known routing.routes)
          (undefined_in-mandatory known _ names (with_baseline-defined profiles)),
      holds-mandatory (keep (λ p. is_some (known p)) routing.mandatory_profiles),
    )

-- A list of names that are all defined is kept whole.
keep-undefined_in :
    (profiles : Profiles) (ns : List String)
    → undefined_in profiles ns ≡ none
    → keep (λ p. is_some (profiles p)) ns ≡ ns
keep-undefined_in profiles [] h = refl
keep-undefined_in profiles (n ∷ ns) h = elim (Bool-cases (is_some (profiles n))) [
  | inl e ↦ rw e (ap (λ l. n ∷ l) (keep-undefined_in profiles ns (ground (arith, e))))
  | inr e ↦ absurd (ground (arith, e))
]

pruned-undefined_route :
    (profiles : Profiles) (rs : List Route)
    → undefined_route profiles rs ≡ none
    → pruned profiles rs ≡ rs
unfolding undefined_route
pruned-undefined_route profiles [] h = refl
pruned-undefined_route profiles (r ∷ rs) h =
    elim (Option-cases (undefined_in profiles r.activate_profiles)) [
      | inl e ↦
          let rest : undefined_route profiles rs ≡ none = rw (e, undefined_route) at h in
          rw
            (
              keep-undefined_in profiles r.activate_profiles e,
              pruned-undefined_route profiles rs rest,
            )
            refl
      | inr (p, e) ↦ absurd (ground (arith, e))
    ]

with_baseline-at :
    (profiles : Profiles) (n : String)
    → is_some (profiles baseline_name) ≡ true
    → with_baseline profiles n ≡ profiles n
unfolding with_baseline
with_baseline-at profiles n h =
    ground (arith, h, λ (e : n ≡ baseline_name). ap profiles e, str_eq_iff n baseline_name)

-- A pack that passes the check, with the baseline defined and mandatory, is left as it is.
pub reconcile_routing_profiles-same :
    (routing : Routing) (profiles : Profiles)
    → inconsistency routing profiles ≡ none
    → is_some (profiles baseline_name) ≡ true
    → any (str_eq baseline_name) routing.mandatory_profiles ≡ true
    → reconcile_routing_profiles routing profiles ≡ (routing, profiles)
unfolding reconcile_routing_profiles inconsistency
reconcile_routing_profiles-same routing profiles ok known mandatory =
    elim (Option-cases (undefined_route profiles routing.routes)) [
      | inr (p, e) ↦ absurd (ground (arith, e))
      | inl routes ↦ elim (Option-cases (undefined_in profiles routing.mandatory_profiles)) [
        | inr (p, e) ↦ absurd (ground (arith, e, routes))
        | inl names ↦
            rw
              (
                fun_ext (λ n. with_baseline-at profiles n known),
                keep-undefined_in profiles routing.mandatory_profiles names,
                pruned-undefined_route profiles routing.routes routes,
                mandatory,
              )
              refl
      ]
    ]
