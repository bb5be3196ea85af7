-- ===== src/Runners/Onboard.antt =====
-- src/runners/cli/onboard.ts: the generators of a context pack, over what the program does when it is
-- called. The prompt is an argument, and so is the schema `OnboardingArtifacts`.
pub mod Grounded
use previewer.Prelude.{
  ℕ, ◌+◌, ◌⊎◌, inl, inr, String, Bool, true, false, Option, none, some, List, [], ◌∷◌, ◌++◌, get_or,
  take, if◌then◌else◌,
}
use previewer.Core.Text.{Text, codes}
use previewer.Core.Split.{is_empty}
use previewer.Core.Digits.{digits, join_strings}
use previewer.Core.Failure.{Thrown}
use previewer.Context.Pack.{Artifact}
use previewer.Context.Onboarding.{GeneratedArtifacts}
use previewer.Context.Onboarding.Run.{Generation}
use previewer.Worker.Review.{new_error}
use previewer.Runners.Streams.{CliResult, describe_cli_failure}
use previewer.Runners.Events.{Value, CodexResult, parse_codex_events}
use previewer.Runners.Json.{extract_json}
use previewer.Runners.Executor.{Env, CliCall, sanitized_claude_env, sanitized_codex_env}
use previewer.Runners.Results.{RawEnvelope, Envelope, parse_envelope}
use previewer.Runners.Claude.{flag}

-- What the language, the schema and the process give a generator, for values `J` of JSON
pub record GeneratorHost (J : Type 0) : Type 0 where
  pub json_parse : Text → Option J
  pub artifacts : J → Thrown ⊎ GeneratedArtifacts
  pub parse_raw : Text → Option RawEnvelope
  pub parse_event : Text → Option Value
  pub of_text : Text → String
  pub process_env : Env
  pub build_onboarding_prompt : List Artifact → Text

pub record GeneratorOptions : Type 0 where
  pub model : Option String
  pub timeout_ms : ℕ
  pub command : String
  pub clean_env : Bool

module _ {J : Type 0} (host : GeneratorHost J) (opts : GeneratorOptions)
    (workspace_dir : String) where
  abbrev fail : {A : Type 0} → Text → Thrown ⊎ A
  fail message = inl (new_error (host.of_text message))

  abbrev pub artifacts_of : Option J → Thrown ⊎ GeneratedArtifacts
  artifacts_of none = fail (codes "no parseable JSON object found in model output")
  artifacts_of (some j) = host.artifacts j

  -- `parseOnboardingArtifacts`
  unfoldable pub parse_onboarding_artifacts : Text → Thrown ⊎ GeneratedArtifacts
  unfolding extract_json
  parse_onboarding_artifacts text = artifacts_of (extract_json host.json_parse text)

  abbrev pub generation : String → ℕ → Thrown ⊎ GeneratedArtifacts → Thrown ⊎ Generation
  generation model tokens (inl err) = inl err
  generation model tokens (inr artifacts) =
      inr (record { artifacts = artifacts; model = model; tokens = tokens })

  abbrev call_with : List String → List Artifact → Env → CliCall
  call_with args targets env = record {
    command = opts.command;
    args = args;
    cwd = workspace_dir;
    input = host.build_onboarding_prompt targets;
    timeout_ms = opts.timeout_ms;
    env = if opts.clean_env then some env else none;
  }

  module _ (allowed_tools : List String) (max_turns : ℕ) where
    unfoldable pub claude_generate_call : List Artifact → CliCall
    unfolding digits join_strings sanitized_claude_env
    claude_generate_call targets =
        call_with
          ("-p"
            ∷ "--output-format"
            ∷ "json"
            ∷ "--max-turns"
            ∷ host.of_text (digits max_turns)
            ∷ "--allowed-tools"
            ∷ join_strings "," allowed_tools
            ∷ "--strict-mcp-config"
            ∷ flag "--model" opts.model)
          targets (sanitized_claude_env host.process_env)

  abbrev subtype_text : Text → Text
  subtype_text t = if is_empty t then codes "?" else t

  abbrev envelope_failure : Envelope → Text
  envelope_failure env =
      codes "claude onboarding error ["
      ++ subtype_text env.subtype
      ++ codes "]: "
      ++ (if is_empty env.result_text
          then codes "(empty; subtype=" ++ subtype_text env.subtype ++ codes ")"
          else take 500 env.result_text)

  abbrev pub on_generated : CliResult → Option Envelope → Thrown ⊎ Generation
  on_generated res none = fail (
      codes "claude onboarding exited "
      ++ digits res.exit_code
      ++ codes ": "
      ++ (describe_cli_failure res).detail)
  on_generated res (some env) =
      if env.is_error
      then fail (envelope_failure env)
      else generation env.model (env.tokens_in + env.tokens_out)
          (parse_onboarding_artifacts env.result_text)

  abbrev pub on_claude : Thrown ⊎ CliResult → Thrown ⊎ Generation
  on_claude (inl err) = inl err
  on_claude (inr res) = on_generated res (parse_envelope host.parse_raw res.stdout)

  -- `ClaudeCliPackGenerator.generate`
  unfoldable pub claude_generate :
      List String → ℕ → (CliCall → Thrown ⊎ CliResult) → List Artifact → Thrown ⊎ Generation
  unfolding claude_generate_call parse_envelope parse_onboarding_artifacts digits
      describe_cli_failure
  claude_generate allowed_tools max_turns exec targets =
      on_claude (exec (claude_generate_call allowed_tools max_turns targets))

  unfoldable pub codex_generate_call : String → List Artifact → CliCall
  unfolding sanitized_codex_env
  codex_generate_call sandbox targets =
      call_with
        ("exec"
            ∷ "--json"
            ∷ "--sandbox"
            ∷ sandbox
            ∷ "--skip-git-repo-check"
            ∷ "--color"
            ∷ "never"
            ∷ flag "-C" (some workspace_dir)
          ++ flag "-m" opts.model)
        targets (sanitized_codex_env host.process_env)

  abbrev pub on_answer : String ⊎ CodexResult → Thrown ⊎ Generation
  on_answer (inl message) = inl (new_error message)
  on_answer (inr parsed) =
      generation (get_or opts.model "codex") (parsed.tokens_in + parsed.tokens_out)
        (parse_onboarding_artifacts parsed.result_text)

  abbrev pub on_codex : Thrown ⊎ CliResult → Thrown ⊎ Generation
  on_codex (inl err) = inl err
  on_codex (inr res) = on_answer (parse_codex_events host.parse_event res.stdout)

  -- `CodexPackGenerator.generate`
  unfoldable pub codex_generate :
      String → (CliCall → Thrown ⊎ CliResult) → List Artifact → Thrown ⊎ Generation
  unfolding codex_generate_call parse_codex_events parse_onboarding_artifacts
  codex_generate sandbox exec targets = on_codex (exec (codex_generate_call sandbox targets))
