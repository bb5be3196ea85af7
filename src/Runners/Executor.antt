-- ===== src/Runners/Executor.antt =====
-- src/runners/cli/executor.ts: the environment of the child. An environment is the list of its
-- variables.
pub mod Variables
use previewer.Prelude.{
  ℕ, String, Bool, true, false, not, ◌&&◌, ◌||◌, Option, List, [], ◌∷◌, any, keep, str_eq,
}
use previewer.Core.Text.{Text, codes, starts_with}

abbrev pub Env : Type 0
Env = List (String × String)

-- What `run` is called with
pub record CliCall : Type 0 where
  pub command : String
  pub args : List String
  pub cwd : String
  pub input : Text
  pub timeout_ms : ℕ
  pub env : Option Env

abbrev pub one_of : List String → String → Bool
one_of names key = any (λ n. str_eq n key) names

-- The variables that a child of `claude` does not get
unfoldable pub is_claude_secret : String → Bool
unfolding starts_with
is_claude_secret key =
    not (str_eq key "CLAUDE_CODE_OAUTH_TOKEN")
    && (one_of
          ("ANTHROPIC_API_KEY" ∷ "ANTHROPIC_AUTH_TOKEN" ∷ "ANTHROPIC_BASE_URL" ∷ "CLAUDECODE" ∷ [])
          key
        || starts_with (codes "CLAUDE_CODE_") (codes key))

unfoldable pub sanitized_claude_env : Env → Env
unfolding is_claude_secret
sanitized_claude_env env = keep (λ v. not (is_claude_secret v.0)) env

unfoldable pub is_codex_secret : String → Bool
is_codex_secret key =
    one_of ("OPENAI_API_KEY" ∷ "OPENAI_BASE_URL" ∷ "OPENAI_ORG_ID" ∷ "OPENAI_PROJECT" ∷ []) key

unfoldable pub sanitized_codex_env : Env → Env
unfolding is_codex_secret
sanitized_codex_env env = keep (λ v. not (is_codex_secret v.0)) env
