-- ===== src/Runners/Executor/Variables.antt =====
-- What a variable is in the environment of a child.
use previewer.Prelude.{
  ◌≡◌, ap, inl, inr, String, Bool, true, not, Option, none, [], ◌∷◌, keep, find, str_eq, str_eq_iff,
  if◌then◌else◌, arith, Bool-cases,
}
use previewer.Runners.Executor.{
  Env, is_claude_secret, sanitized_claude_env, is_codex_secret, sanitized_codex_env,
}

-- The variable and its value, as the child finds it
abbrev pub variable : String → Env → Option (String × String)
variable key env = find (λ v. str_eq v.0 key) env

variable-keep :
    (secret : String → Bool) (key : String) (env : Env)
    → variable key (keep (λ v. not (secret v.0)) env)
      ≡ (if secret key then none else variable key env)
variable-keep secret key [] = ground arith
variable-keep secret key ((name, value) ∷ env) =
    let ih = variable-keep secret key env in
    let same_secret : str_eq name key ≡ true → secret name ≡ secret key =
      λ e. ap secret ((str_eq_iff name key).0 e) in
    elim (Bool-cases (secret name)) [
      | inl s ↦ rw s (ground (arith, s, ih, same_secret))
      | inr s ↦ rw s (ground (arith, s, ih, same_secret))
    ]

-- A child of either reviewer finds none of the variables that would bill another account, and every
-- other one as its parent has it.
sanitized_envs :
    (key : String) (env : Env)
    → (variable key (sanitized_claude_env env)
        ≡ (if is_claude_secret key then none else variable key env))
      × (variable key (sanitized_codex_env env)
          ≡ (if is_codex_secret key then none else variable key env))
unfolding sanitized_claude_env sanitized_codex_env
sanitized_envs key env =
    (variable-keep is_claude_secret key env, variable-keep is_codex_secret key env)
