-- ===== src/Tests/Runners.antt =====
-- The command-line reviewers at concrete inputs: a program that prints noise first.
use previewer.Prelude.{
  ℕ, zero, suc, ◌≡◌, refl, ◌⊎◌, inr, String, false, Option, none, some, List, [], ◌∷◌, ◌++◌,
  if◌then◌else◌, arith,
}
use previewer.Core.Text.{Text, codes, same_text}
use previewer.Core.Lines.{split_lines}
use previewer.Core.Split.{trim}
use previewer.Worker.Input.{ReviewInput, build_review_input}
use previewer.Worker.Review.{RunContext}
use previewer.Runners.Streams.{CliResult, clean_cli_lines, describe_cli_failure}
use previewer.Runners.Streams.Headline.{said, IsBody, Describes, describe_cli_failure-Describes}
use previewer.Runners.Events.{RawEvent, Value, fields, parse_codex_events}
use previewer.Runners.Events.Answer.{Result, parse_codex_events-Result}
use previewer.Runners.Json.{extract_json}
use previewer.Runners.Json.Wrapped.{object, extract_json-wrapped}
use previewer.Runners.Executor.{Env, CliCall}
use previewer.Runners.Results.{RawEnvelope, ok, parse_envelope, build_review_result}
use previewer.Runners.Claude.{
  RunnerHost, default_claude_options, settle_attempt, on_envelope, attempts_from, claude_review,
}
use previewer.Runners.Claude.Attempts.{Settles, claude_review-Settles}
use previewer.Runners.Codex.{default_codex_options, codex_review}
use previewer.Runners.Delivery.{Delivers, reviews-Deliver}
use previewer.Tests.Data.{a_config, a_pull_request}
use previewer.Tests.Pipeline.{a_request, a_workspace, a_context, deps, draws}

abbrev failed_cli : CliResult
failed_cli = record {
  stdout = codes "{}";
  stderr = codes "Reading prompt from stdin...";
  exit_code = 1;
}

describe_cli_failure-Describes_example :
    (text : Text) × IsBody
      (clean_cli_lines failed_cli.stdout)
      (clean_cli_lines failed_cli.stderr)
      text
    × Describes (said failed_cli) text (describe_cli_failure failed_cli)
describe_cli_failure-Describes_example = describe_cli_failure-Describes failed_cli

-- The banner is passed over.
banner_test : (describe_cli_failure failed_cli).summary ≡ codes "{}"
unfolding describe_cli_failure
banner_test = refl

abbrev an_event : RawEvent
an_event = record {
  event_type = some "item.completed";
  item = some (record { item_type = some "agent_message"; text = some (codes "done") });
  usage = none;
}

-- Of all lines, `m` is the one event.
abbrev parse_event : Text → Option Value
parse_event t = if same_text t (codes "m") then some (fields an_event) else none

abbrev an_output : Text
an_output = codes "noise" ++ 10 ∷ codes "m"

parse_codex_events-Result_example :
    Result parse_event (split_lines an_output) (parse_codex_events parse_event an_output)
unfolding split_lines trim same_text
parse_codex_events-Result_example =
    parse_codex_events-Result parse_event an_output
      ((λ e. absurd (ground (arith, e))), ((λ e. absurd (ground (arith, e))), tt))

abbrev parse_empty : Text → Option ℕ
parse_empty t = if same_text t (codes "{}") then some 1 else none

extract_json-wrapped_example :
    extract_json parse_empty (codes "So: " ++ object [] (codes " ok")) ≡ parse_empty (object [] [])
unfolding same_text trim
extract_json-wrapped_example =
    extract_json-wrapped parse_empty (codes "So: ") [] (codes " ok")
      (refl, (refl, (refl, (refl, tt)))) (refl, (refl, (refl, tt)))
      (refl, (refl, (refl, (refl, (refl, (refl, (refl, (refl, (refl, tt))))))))) refl

abbrev an_env : Env
an_env = ("PATH", "/bin") ∷ ("OPENAI_API_KEY", "k") ∷ []

abbrev an_input : ReviewInput
unfolding build_review_input
an_input = build_review_input a_config "en" a_pull_request a_workspace a_context false

abbrev a_run_context : RunContext
a_run_context = record {
  workspace_dir = "/tmp/w";
  max_input_tokens = 120_000;
  max_output_tokens = 8_000;
  max_turns = 40;
  run_tests = false;
  model_override = none;
  reasoning_effort = none;
}

abbrev an_envelope : RawEnvelope
an_envelope = record {
  is_error = some false;
  subtype = none;
  result = some (codes "{}");
  model = none;
  input_tokens = some 3;
  cache_read_input_tokens = none;
  output_tokens = some 4;
  total_cost_usd = none;
  duration_ms = none;
  num_turns = none;
}

abbrev a_host : RunnerHost ℕ
a_host = record {
  parse_raw = λ t. if same_text t (codes "e") then some an_envelope else none;
  reader = record {
    json_parse = parse_empty;
    model_output = λ n. inr (record { status = ok; comment = "fine" });
  };
  of_text = λ t. "text";
  process_env = an_env;
  build_review_prompt = λ input. codes "Review";
}

abbrev printed : Text → CliResult
printed out = record { stdout = out; stderr = []; exit_code = 0 }

-- The first output has no envelope.
abbrev claude_runs : ℕ → CliCall → Text ⊎ CliResult
claude_runs zero call = inr (printed (codes "oops"))
claude_runs (suc zero) call = inr (printed (codes "oops"))
claude_runs (suc (suc n)) call = inr (printed (codes "e"))

claude_review-Settles_example :
    Settles a_host default_claude_options claude_runs an_input a_run_context 1 4
      (claude_review a_host default_claude_options claude_runs an_input a_run_context)
claude_review-Settles_example =
    claude_review-Settles a_host default_claude_options claude_runs an_input a_run_context

-- The second attempt answers.
second_attempt_test :
    (claude_review a_host default_claude_options claude_runs an_input a_run_context).comment
    ≡ some "fine"
unfolding claude_review attempts_from settle_attempt parse_envelope on_envelope build_review_result
    extract_json trim same_text
second_attempt_test = refl

abbrev collect_none : String → List Text → ℕ → Text
collect_none dir paths n = []

abbrev codex_run : CliCall → Text ⊎ CliResult
codex_run call = inr (printed an_output)

reviews-Deliver_example :
    Delivers deps a_request a_pull_request draws none []
      (claude_review a_host default_claude_options claude_runs an_input a_run_context)
    × Delivers deps a_request a_pull_request draws none [] (
        codex_review a_host default_codex_options parse_event "schema.json" collect_none codex_run 5
          an_input a_run_context)
reviews-Deliver_example =
    reviews-Deliver deps a_request a_pull_request draws none [] a_host an_input a_run_context
      default_claude_options claude_runs default_codex_options parse_event "schema.json"
      collect_none codex_run 5 refl
