-- ===== src/Config/Runners.antt =====
-- src/config/runner-profiles.ts and src/runners/registry.ts: which client a repository runs, and
-- what is wrong with a configuration that selects none. Profiles are the pairs of the platform's
-- map; the registry is the list of the registered runners' ids.
use Prim.Native.String.{◌++◌ as str_append}
use Prim.Native.String.{compare}
use text.Mathlib.Text.{is_le}
use previewer.Prelude.{
  String, ◌⊎◌, inl, inr, Bool, not, Option, none, some, List, [], ◌∷◌, map, str_eq, if◌then◌else◌,
  any, keep,
}
use previewer.Config.Repo.{RunnerBlock, RunnerOverride, RunnerProfile, RepoConfig}

abbrev pub RunnerProfiles : Type 0
RunnerProfiles = List (String × RunnerProfile)

pub record ResolvedRunnerProfile : Type 0 where
  pub name : String
  pub runner : String
  pub model : Option String
  pub reasoning_effort : Option String

abbrev pub inline_profile_name : String
inline_profile_name = "(inline)"

-- A message in pieces
abbrev pub say : List String → String
say [] = ""
say (s ∷ ss) = str_append s (say ss)

insert_name : String → List String → List String
insert_name x [] = x ∷ []
insert_name x (y ∷ ys) = if is_le (compare x y) then x ∷ y ∷ ys else y ∷ insert_name x ys

-- `names.sort()`; names order by their characters' codes.
sort_names : List String → List String
unfolding insert_name
sort_names [] = []
sort_names (x ∷ xs) = insert_name x (sort_names xs)

-- `names.join(", ")`
join_names : List String → String
join_names [] = ""
join_names (x ∷ []) = x
join_names (x ∷ y ∷ ys) = say (x ∷ ", " ∷ join_names (y ∷ ys) ∷ [])

unique_names : List String → List String
unique_names [] = []
unique_names (x ∷ xs) = x ∷ keep (λ y. not (str_eq y x)) (unique_names xs)

-- `[...new Set(ids)].sort().join(", ") || none_text`
known_names : String → List String → String
unfolding sort_names join_names unique_names
known_names none_text ids = elim (unique_names ids) [
  | [] ↦ none_text
  | x ∷ xs ↦ join_names (sort_names (x ∷ xs))
]

-- `profiles[name]`
unfoldable pub lookup_profile : String → RunnerProfiles → Option RunnerProfile
lookup_profile name [] = none
lookup_profile name ((n, p) ∷ ps) = if str_eq n name then some p else lookup_profile name ps

-- `resolveRunnerProfile`: the message that it throws with, or the client
unfoldable pub resolve_runner_profile :
    RunnerBlock → RunnerProfiles → String ⊎ ResolvedRunnerProfile
unfolding lookup_profile known_names
resolve_runner_profile runner profiles = elim runner.profile [
  | none ↦ inr (record {
    name = inline_profile_name;
    runner = runner.default_runner;
    model = runner.model;
    reasoning_effort = runner.reasoning_effort;
  })
  | some name ↦ elim (lookup_profile name profiles) [
    | none ↦ inl (
        say (
          "Unknown runner profile \""
          ∷ name
          ∷ "\". Defined profiles: "
          ∷ known_names "(none defined)" (map (λ p. p.0) profiles)
          ∷ "."
          ∷ []))
    | some p ↦ inr (record {
      name = name;
      runner = p.runner;
      model = p.model;
      reasoning_effort = p.reasoning_effort;
    })
  ]
]

-- `ids.has(id)`
unfoldable pub has_runner : List String → String → Bool
has_runner ids id = any (λ x. str_eq x id) ids

-- The first override whose runner is not registered.
unfoldable pub override_problem : List String → String → List RunnerOverride → Option String
unfolding has_runner
override_problem ids known [] = none
override_problem ids known (o ∷ os) =
    if not (has_runner ids o.use_runner)
    then some (
        say (
          "runner override selects unknown runner \"" ∷ o.use_runner ∷ "\". Registered runners: "
          ∷ known ∷ "." ∷ []))
    else override_problem ids known os

-- How the message names what selects the client.
via_text : String → String
via_text name =
    if str_eq name inline_profile_name
    then "runner.default"
    else say ("profile \"" ∷ name ∷ "\"" ∷ [])

unfoldable pub client_problem :
    RunnerBlock → List String → String → ResolvedRunnerProfile → Option String
unfolding has_runner override_problem via_text
client_problem runner ids known active =
    if not (has_runner ids active.runner)
    then some (
        say (
          via_text active.name
          ∷ " selects unknown runner \""
          ∷ active.runner
          ∷ "\". Registered runners: "
          ∷ known
          ∷ "."
          ∷ []))
    else override_problem ids known runner.overrides

unfoldable pub problem_of :
    RunnerBlock → List String → String ⊎ ResolvedRunnerProfile → Option String
unfolding client_problem known_names
problem_of runner ids (inl message) = some message
problem_of runner ids (inr active) =
    client_problem runner ids (known_names "(none registered)" ids) active

-- `runnerConfigProblem`
unfoldable pub runner_config_problem : RunnerBlock → RunnerProfiles → List String → Option String
unfolding resolve_runner_profile problem_of
runner_config_problem runner profiles ids =
    problem_of runner ids (resolve_runner_profile runner profiles)

pub record RepoRunnerProblem : Type 0 where
  pub repo : String
  pub message : String

-- `repoRunnerProblems`; a message is never the empty text.
unfoldable pub repo_runner_problems :
    List RepoConfig → RunnerProfiles → List String → List RepoRunnerProblem
unfolding runner_config_problem
repo_runner_problems [] profiles ids = []
repo_runner_problems (cfg ∷ repos) profiles ids =
    let rest = repo_runner_problems repos profiles ids in
    elim (runner_config_problem cfg.runner profiles ids) [
      | none ↦ rest
      | some message ↦ record { repo = cfg.id; message = message } ∷ rest
    ]

-- `invalidProfileRunners`: the names and the runners
unfoldable pub invalid_profile_runners : RunnerProfiles → List String → List (String × String)
unfolding has_runner
invalid_profile_runners [] ids = []
invalid_profile_runners ((name, p) ∷ ps) ids =
    let rest = invalid_profile_runners ps ids in
    if not (has_runner ids p.runner) then (name, p.runner) ∷ rest else rest
