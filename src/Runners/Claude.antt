-- ===== src/Runners/Claude.antt =====
-- `ClaudeCliRunner.review` of src/runners/cli/claude.ts. The prompt is an argument, and so is what each
-- run of the program does: the message of what it throws, or what it prints. The context's budget
-- always has its turns, so the runner's own `maxTurns` is not read.
pub mod Attempts
use previewer.Prelude.{
  ℕ, zero, suc, max, ◌⊎◌, inl, inr, String, Bool, true, false, Option, none, some, List, [], ◌∷◌,
  ◌++◌, length, get_or, take, if◌then◌else◌,
}
use previewer.Core.Text.{Text, codes, same_text}
use previewer.Core.Split.{is_empty}
use previewer.Core.Digits.{digits, join_strings}
use previewer.Worker.Input.{ReviewInput, ReviewResult}
use previewer.Worker.Review.{RunContext, is_set, or_else}
use previewer.Runners.Streams.{CliResult, describe_cli_failure}
use previewer.Runners.Executor.{Env, CliCall, sanitized_claude_env}
use previewer.Runners.Results.{
  RawEnvelope, Envelope, AnswerReader, parse_envelope, error_result, build_review_result,
}

pub record ClaudeOptions : Type 0 where
  pub model : Option String
  pub timeout_ms : ℕ
  pub command : String
  pub allowed_tools : List String
  pub clean_env : Bool
  pub max_parse_attempts : ℕ

-- The constructor's defaults
abbrev pub default_claude_options : ClaudeOptions
default_claude_options = record {
  model = none;
  timeout_ms = 1_800_000;
  command = "claude";
  allowed_tools = "Read" ∷ "Grep" ∷ "Glob" ∷ [];
  clean_env = true;
  max_parse_attempts = 3;
}

abbrev pub claude_id : String
claude_id = "claude-cli"

-- `if (x) args.push(flag, x)`
abbrev pub flag : String → Option String → List String
flag name value = if is_set value then name ∷ get_or value "" ∷ [] else []

-- `subtype || "?"`
abbrev subtype_text : Text → Text
subtype_text t = if is_empty t then codes "?" else t

-- What the program and the language give a runner: `JSON.parse` of an envelope, the reader of an answer,
-- the string of a list of units, the environment of this process, and the prompt.
pub record RunnerHost (J : Type 0) : Type 0 where
  pub parse_raw : Text → Option RawEnvelope
  pub reader : AnswerReader J
  pub of_text : Text → String
  pub process_env : Env
  pub build_review_prompt : ReviewInput → Text

module _ {J : Type 0} (host : RunnerHost J) (opts : ClaudeOptions) where
  abbrev number : ℕ → String
  number n = host.of_text (digits n)

  -- `allowedTools`
  unfoldable pub tools_of : RunContext → List String
  tools_of ctx = if ctx.run_tests then opts.allowed_tools ++ "Bash" ∷ [] else opts.allowed_tools

  abbrev pub model_of : RunContext → Option String
  model_of ctx = or_else ctx.model_override opts.model

  unfoldable pub claude_args : RunContext → List String
  unfolding digits join_strings tools_of is_set
  claude_args ctx =
      "-p"
        ∷ "--output-format"
        ∷ "json"
        ∷ "--max-turns"
        ∷ number ctx.max_turns
        ∷ "--allowed-tools"
        ∷ join_strings "," (tools_of ctx)
        ∷ "--strict-mcp-config"
        ∷ flag "--model" (model_of ctx)
      ++ flag "--effort" ctx.reasoning_effort

  unfoldable pub claude_call : ReviewInput → RunContext → CliCall
  unfolding claude_args sanitized_claude_env
  claude_call input ctx = record {
    command = opts.command;
    args = claude_args ctx;
    cwd = ctx.workspace_dir;
    input = host.build_review_prompt input;
    timeout_ms = opts.timeout_ms;
    env = if opts.clean_env then some (sanitized_claude_env host.process_env) else none;
  }

  -- The message of an envelope that reports an error
  unfoldable pub envelope_error : ReviewInput → RunContext → Envelope → Text
  unfolding same_text digits
  envelope_error input ctx env =
      if same_text env.subtype (codes "error_max_turns")
      then codes "claude exhausted its turn budget (--max-turns "
        ++ digits ctx.max_turns
        ++ codes ", used "
        ++ digits env.num_turns
        ++ codes ") on "
        ++ digits (length input.diff.changed_files)
        ++ codes " changed files without emitting a review"
      else codes "claude error ["
        ++ subtype_text env.subtype
        ++ codes "]: "
        ++ (if is_empty env.result_text
            then codes "(empty result; subtype="
              ++ subtype_text env.subtype
              ++ codes ", turns="
              ++ digits env.num_turns
              ++ codes ")"
            else take 500 env.result_text)

  unfoldable pub on_envelope : ReviewInput → RunContext → Envelope → ReviewResult
  unfolding envelope_error error_result build_review_result
  on_envelope input ctx env =
      if env.is_error
      then error_result input claude_id env.model (host.of_text (envelope_error input ctx env))
      else build_review_result host.reader input claude_id env

  -- What one attempt settles: nothing if the output has no envelope.
  unfoldable pub settle_attempt : ReviewInput → RunContext → Text ⊎ CliResult → Option ReviewResult
  unfolding parse_envelope on_envelope error_result
  settle_attempt input ctx (inl message) =
      some (error_result input claude_id (get_or (model_of ctx) "claude") (host.of_text message))
  settle_attempt input ctx (inr res) = elim (parse_envelope host.parse_raw res.stdout) [
    | some env ↦ some (on_envelope input ctx env)
    | none ↦ none
  ]

  abbrev pub detail_of : Text ⊎ CliResult → Text
  detail_of (inl message) = message
  detail_of (inr res) = (describe_cli_failure res).detail

  abbrev pub attempts : ℕ
  attempts = max 1 opts.max_parse_attempts

  unfoldable pub drift_result : ReviewInput → RunContext → Text → ReviewResult
  unfolding error_result digits
  drift_result input ctx last_detail =
      error_result input claude_id (get_or (model_of ctx) "claude") (
        host.of_text (
          codes "claude output drift (no JSON envelope) after "
          ++ digits attempts
          ++ codes " attempts: "
          ++ last_detail))

  module _ (exec : ℕ → CliCall → Text ⊎ CliResult) where
    -- The loop, with as many attempts left
    unfoldable pub attempts_from : ReviewInput → RunContext → ℕ → ℕ → Text → ReviewResult
    unfolding settle_attempt claude_call drift_result describe_cli_failure
    attempts_from input ctx zero attempt last_detail = drift_result input ctx last_detail
    attempts_from input ctx (suc left) attempt last_detail =
        let ran = exec attempt (claude_call input ctx) in
        elim (settle_attempt input ctx ran) [
          | some result ↦ result
          | none ↦ attempts_from input ctx left (suc attempt) (detail_of ran)
        ]

    -- `review`
    unfoldable pub claude_review : ReviewInput → RunContext → ReviewResult
    unfolding attempts_from
    claude_review input ctx = attempts_from input ctx attempts 1 (codes "no output")
