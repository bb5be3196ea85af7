-- ===== src/Worker/Policy/Selection.antt =====
-- Which client a change selects, and that a configuration without a problem selects one that is
-- registered.
use mathlib.Core.Path.{subst}
use previewer.Prelude.{
  ℕ, ◌+◌, ◌≤◌, String, ◌≡◌, refl, ◌⊎◌, inl, inr, Bool, true, false, none, some, List, [], ◌∷◌, ◌++◌,
  find, find-Has, Has, All, arith, Option-cases, Bool-cases, ap,
}
use previewer.Config.Repo.{RunnerBlock, RunnerOverride}
use previewer.Config.Runners.{
  RunnerProfiles, ResolvedRunnerProfile, resolve_runner_profile, runner_config_problem, has_runner,
  client_problem, override_problem, problem_of,
}
use previewer.Worker.Policy.{
  Signals, RunnerSelector, when_matches, select_override, client_selector, select_runner_selector,
  turn_budget,
}

some_eq : {A : Type 0} → (a b : A) → some a ≡ some b → a ≡ b
some_eq a b h = cc

-- The first override that agrees with the change.
pub record FirstMatch (s : Signals) (os : List RunnerOverride) (o : RunnerOverride) : Type 0 where
  pub before : List RunnerOverride
  pub after : List RunnerOverride
  pub split : os ≡ before ++ o ∷ after
  pub passed : All (λ x. when_matches x.when s ≡ false) before
  pub matched : when_matches o.when s ≡ true

find-FirstMatch :
    (s : Signals) (os : List RunnerOverride) (o : RunnerOverride)
    → find (λ x. when_matches x.when s) os ≡ some o
    → FirstMatch s os o
find-FirstMatch s [] o h = absurd (ground (arith, h))
find-FirstMatch s (x ∷ os) o h = elim (Bool-cases (when_matches x.when s)) [
  | inl e ↦
      let same : x ≡ o = some_eq x o (rw e at h) in
      record { before = []; after = os; split = rw same refl; passed = tt; matched = rw same at e }
  | inr e ↦
      let rest = find-FirstMatch s os o (rw e at h) in
      record {
        before = x ∷ rest.before;
        after = rest.after;
        split = ap (λ l. x ∷ l) rest.split;
        passed = (e, rest.passed);
        matched = rest.matched;
      }
]

none_matches :
    (s : Signals) (os : List RunnerOverride)
    → find (λ x. when_matches x.when s) os ≡ none
    → All (λ x. when_matches x.when s ≡ false) os
none_matches s [] h = tt
none_matches s (x ∷ os) h = elim (Bool-cases (when_matches x.when s)) [
  | inl e ↦ absurd (ground (arith, h, e))
  | inr e ↦ (e, none_matches s os (rw e at h))
]

-- The first override that agrees with the change selects the runner, with its model and effort.
-- With none, the profile or the inline block does, and an unknown profile is the only failure.
first_override :
    (runner : RunnerBlock) (s : Signals) (profiles : RunnerProfiles)
    → ((o : RunnerOverride) × FirstMatch s runner.overrides o
        × (select_runner_selector runner s profiles ≡ inr (select_override runner s o)))
      ⊎ (All (λ o. when_matches o.when s ≡ false) runner.overrides
          × (select_runner_selector runner s profiles
              ≡ client_selector runner s (resolve_runner_profile runner profiles)))
unfolding select_runner_selector
first_override runner s profiles =
    elim (Option-cases (find (λ o. when_matches o.when s) runner.overrides)) [
      | inl e ↦ inr (none_matches s runner.overrides e, rw (e, select_runner_selector) refl)
      | inr (o, e) ↦
          inl (o, find-FirstMatch s runner.overrides o e, rw (e, select_runner_selector) refl)
    ]

-- The runner that a selector prefers is registered.
abbrev pub selects_registered : List String → String ⊎ RunnerSelector → Bool
selects_registered ids (inl message) = false
selects_registered ids (inr sel) = has_runner ids sel.preferred

override-registered :
    (ids : List String) (known : String) (os : List RunnerOverride) (o : RunnerOverride)
    → override_problem ids known os ≡ none
    → Has o os
    → has_runner ids o.use_runner ≡ true
unfolding override_problem
override-registered ids known [] o h i = elim i [ ]
override-registered ids known (x ∷ os) o h i = elim (Bool-cases (has_runner ids x.use_runner)) [
  | inl e ↦ elim i [
    | inl same ↦ subst (λ z. has_runner ids z.use_runner ≡ true) same e
    | inr later ↦ override-registered ids known os o (rw e at h) later
  ]
  | inr e ↦ absurd (ground (arith, h, e))
]

client-registered :
    (runner : RunnerBlock) (ids : List String) (known : String) (active : ResolvedRunnerProfile)
    → client_problem runner ids known active ≡ none
    → (has_runner ids active.runner ≡ true) × (override_problem ids known runner.overrides ≡ none)
unfolding client_problem
client-registered runner ids known active h = elim (Bool-cases (has_runner ids active.runner)) [
  | inl e ↦ (e, rw e at h)
  | inr e ↦ absurd (ground (arith, h, e))
]

resolved-registered :
    (runner : RunnerBlock) (s : Signals) (ids : List String)
    (resolved : String ⊎ ResolvedRunnerProfile)
    → problem_of runner ids resolved ≡ none
    → (selects_registered ids (client_selector runner s resolved) ≡ true)
      × ((known : String) × (override_problem ids known runner.overrides ≡ none))
unfolding problem_of
resolved-registered runner s ids (inl message) h = absurd (ground (arith, h))
resolved-registered runner s ids (inr active) h =
    let ok = client-registered runner ids _ active h in (ok.0, (_, ok.1))

-- A configuration in which the check finds no problem selects a registered runner for every
-- change: no run fails for its configuration once it has claimed its head.
pub no_problem_selects :
    (runner : RunnerBlock) (profiles : RunnerProfiles) (ids : List String) (s : Signals)
    → runner_config_problem runner profiles ids ≡ none
    → selects_registered ids (select_runner_selector runner s profiles) ≡ true
unfolding runner_config_problem select_runner_selector
no_problem_selects runner profiles ids s h =
    let ok = resolved-registered runner s ids (resolve_runner_profile runner profiles) h in
    elim (Option-cases (find (λ o. when_matches o.when s) runner.overrides)) [
      | inl e ↦ rw (e, select_runner_selector) ok.0
      | inr (o, e) ↦
          let i = find-Has (λ x. when_matches x.when s) runner.overrides e in
          rw (e, select_runner_selector)
            (override-registered ids ok.1.0 runner.overrides o ok.1.1 i)
    ]

-- The turns of a run are between those of an empty change and the ceiling, never fewer for more
-- files, and three more for each file until the ceiling is reached, at 40 files.
pub turn_budget-bounds :
    (m n : ℕ)
    → m ≤ n
    → (40 ≤ turn_budget m)
      × (turn_budget n ≤ 160)
      × (turn_budget m ≤ turn_budget n)
      × ((m + 1 ≤ 40 → turn_budget (m + 1) ≡ turn_budget m + 3) × (40 ≤ n → turn_budget n ≡ 160))
unfolding turn_budget
turn_budget-bounds m n h = (
  omega arith,
  omega arith,
  omega (arith, h),
  (λ few. omega (arith, few), λ many. omega (arith, many)),
)
