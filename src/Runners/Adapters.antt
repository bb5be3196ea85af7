-- ===== src/Runners/Adapters.antt =====
-- What the results of both command-line reviewers have in common, and what the pipeline makes of them.
use previewer.Prelude.{ℕ, refl, ◌⊎◌, inl, inr, String, Option, List, Bool-cases}
use previewer.Core.Text.{Text}
use previewer.Worker.Input.{ReviewInput}
use previewer.Worker.Review.{RunContext}
use previewer.Runners.Streams.{CliResult}
use previewer.Runners.Events.{Value, CodexResult, parse_codex_events}
use previewer.Runners.Executor.{CliCall}
use previewer.Runners.Results.{Envelope, error_result}
use previewer.Runners.Results.Coherence.{
  IsCoherent, error_result-IsCoherent, build_review_result-IsCoherent,
}
use previewer.Runners.Claude.{
  ClaudeOptions, RunnerHost, claude_id, envelope_error, on_envelope, drift_result, claude_review,
}
use previewer.Runners.Claude.Attempts.{claude_review-Settles}
use previewer.Runners.Codex.{CodexOptions, codex_id, codex_call, on_events, on_run, codex_review}

module _ {J : Type 0} (host : RunnerHost J) where
  on_envelope-IsCoherent :
      (opts : ClaudeOptions) (input : ReviewInput) (ctx : RunContext) (env : Envelope)
      → IsCoherent (on_envelope host opts input ctx env)
  unfolding on_envelope
  on_envelope-IsCoherent opts input ctx env = elim (Bool-cases env.is_error) [
    | inl e ↦ rw e (
        error_result-IsCoherent input claude_id env.model
          (host.of_text (envelope_error host opts input ctx env)))
    | inr e ↦ rw e (build_review_result-IsCoherent host.reader input claude_id env)
  ]

  pub claude_review-IsCoherent :
      (opts : ClaudeOptions) (exec : ℕ → CliCall → Text ⊎ CliResult) (input : ReviewInput)
      (ctx : RunContext)
      → IsCoherent (claude_review host opts exec input ctx)
  claude_review-IsCoherent opts exec input ctx =
      elim (claude_review-Settles host opts exec input ctx) [
        | inl (k, from, before, inl (message, ran, result), drifts) ↦
            rw result (unfold error_result in refl)
        | inl (k, from, before, inr (res, env, ran, here, result), drifts) ↦
            rw result (on_envelope-IsCoherent opts input ctx env)
        | inr (drifts, result) ↦ rw result.2 (unfold drift_result error_result in refl)
      ]

  module _ (opts : CodexOptions) (parse_event : Text → Option Value) (output_schema : String)
      (collect : String → List Text → ℕ → Text) (input : ReviewInput) (ctx : RunContext)
      (elapsed : ℕ) where
    on_events-IsCoherent :
        (res : CliResult) (events : String ⊎ CodexResult)
        → IsCoherent
            (on_events host opts parse_event output_schema collect input ctx elapsed res events)
    on_events-IsCoherent res (inl message) = error_result-IsCoherent input codex_id _ _
    on_events-IsCoherent res (inr parsed) =
        build_review_result-IsCoherent host.reader input codex_id _

    on_run-IsCoherent :
        (ran : Text ⊎ CliResult)
        → IsCoherent (on_run host opts parse_event output_schema collect input ctx elapsed ran)
    on_run-IsCoherent (inl message) = error_result-IsCoherent input codex_id _ _
    on_run-IsCoherent (inr res) =
        on_events-IsCoherent res (parse_codex_events parse_event res.stdout)

    pub codex_review-IsCoherent :
        (exec : CliCall → Text ⊎ CliResult)
        → IsCoherent
            (codex_review host opts parse_event output_schema collect exec elapsed input ctx)
    unfolding codex_review
    codex_review-IsCoherent exec =
        on_run-IsCoherent (exec (codex_call host opts parse_event output_schema collect input ctx))
