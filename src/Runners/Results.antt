-- ===== src/Runners/Results.antt =====
-- `parseEnvelope`, `errorResult` and `buildReviewResult` of src/runners/shared/output.ts. What
-- `JSON.parse` and the schema `ModelOutput` make of a text are arguments, and so is the string of a
-- list of units.
pub mod Coherence
use previewer.Prelude.{
  ℕ, ◌+◌, ◌⊎◌, inl, inr, String, Bool, true, false, Option, none, some, List, [], ◌∷◌, get_or,
}
use previewer.Core.Text.{Text, codes}
use previewer.Core.Digits.{join_strings}
use previewer.Core.State.{RunStatus}
use previewer.Worker.Input.{ReviewInput, ReviewResult, RunError}
use previewer.Runners.Json.{extract_json}

-- The envelope of `claude -p`, with none for a field that is absent or `null`; the fields have the
-- types that the program documents.
pub record RawEnvelope : Type 0 where
  pub is_error : Option Bool
  pub subtype : Option Text
  pub result : Option Text
  pub model : Option String
  pub input_tokens : Option ℕ
  pub cache_read_input_tokens : Option ℕ
  pub output_tokens : Option ℕ
  pub total_cost_usd : Option ℕ
  pub duration_ms : Option ℕ
  pub num_turns : Option ℕ

pub record Envelope : Type 0 where
  pub is_error : Bool
  pub subtype : Text
  pub result_text : Text
  pub model : String
  pub tokens_in : ℕ
  pub tokens_out : ℕ
  pub usd : ℕ
  pub duration_ms : ℕ
  pub num_turns : ℕ

abbrev pub envelope_of : Option RawEnvelope → Option Envelope
envelope_of none = none
envelope_of (some o) = some (record {
  is_error = get_or o.is_error false;
  subtype = get_or o.subtype [];
  result_text = get_or o.result [];
  model = get_or o.model "claude";
  tokens_in = get_or o.input_tokens 0 + get_or o.cache_read_input_tokens 0;
  tokens_out = get_or o.output_tokens 0;
  usd = get_or o.total_cost_usd 0;
  duration_ms = get_or o.duration_ms 0;
  num_turns = get_or o.num_turns 0;
})

-- Nothing where it throws, which it also does on `null`
unfoldable pub parse_envelope : (Text → Option RawEnvelope) → Text → Option Envelope
parse_envelope json_parse stdout = envelope_of (json_parse stdout)

-- Of `ModelOutput`, what a result keeps
pub data OutputStatus : Type 0 where
  ok skipped : OutputStatus

pub record ModelOutput : Type 0 where
  pub status : OutputStatus
  pub comment : String

abbrev pub run_status : OutputStatus → RunStatus
run_status OutputStatus.ok = RunStatus.ok
run_status OutputStatus.skipped = RunStatus.skipped

abbrev profile_of : ReviewInput → String
profile_of input = join_strings "," input.context.active_profiles

-- `errorResult`, for an error that can be retried
unfoldable pub error_result : ReviewInput → String → String → String → ReviewResult
unfolding join_strings
error_result input runner_id model message = record {
  status = RunStatus.error;
  comment = none;
  error = some (record { kind = "runner"; message = message; retriable = true });
  runner_id = runner_id;
  model = model;
  profile = profile_of input;
  tokens_in = 0;
  tokens_out = 0;
  usd = 0;
  duration_ms = 0;
}

abbrev pub with_output : ReviewInput → String → Envelope → String ⊎ ModelOutput → ReviewResult
with_output input runner_id env (inl message) = record {
  status = RunStatus.error;
  comment = none;
  error = some (record { kind = "parse"; message = message; retriable = true });
  runner_id = runner_id;
  model = env.model;
  profile = profile_of input;
  tokens_in = env.tokens_in;
  tokens_out = env.tokens_out;
  usd = env.usd;
  duration_ms = env.duration_ms;
}
with_output input runner_id env (inr parsed) = record {
  status = run_status parsed.status;
  comment = some parsed.comment;
  error = none;
  runner_id = runner_id;
  model = env.model;
  profile = profile_of input;
  tokens_in = env.tokens_in;
  tokens_out = env.tokens_out;
  usd = env.usd;
  duration_ms = env.duration_ms;
}

-- How a model's answer is read: `JSON.parse`, and `ModelOutput.parse` with the message of what it
-- throws.
pub record AnswerReader (J : Type 0) : Type 0 where
  pub json_parse : Text → Option J
  pub model_output : J → String ⊎ ModelOutput

module _ {J : Type 0} (reader : AnswerReader J) where
  abbrev model_output_of : Option J → String ⊎ ModelOutput
  model_output_of none = inl "no parseable JSON object found in model output"
  model_output_of (some j) = reader.model_output j

  unfoldable pub build_review_result : ReviewInput → String → Envelope → ReviewResult
  unfolding extract_json
  build_review_result input runner_id env =
      with_output input runner_id env
        (model_output_of (extract_json reader.json_parse env.result_text))
