-- ===== src/Runners/Results/Coherence.antt =====
-- The results of a review that cannot be both a comment and an error.
use previewer.Prelude.{◌≡◌, refl, ◌⊎◌, inl, inr, String, true, Option, none, some, Nowhere}
use previewer.Core.State.{RunStatus}
use previewer.Worker.Input.{ReviewInput, ReviewResult, RunError}
use previewer.Runners.Results.{
  Envelope, ModelOutput, OutputStatus, ok, skipped, AnswerReader, run_status, error_result,
  with_output, build_review_result,
}

-- With the status `error` there is no comment, and an error that can be retried; with another one
-- there is a comment and no error.
abbrev pub Fits : RunStatus → Option String → Option RunError → Type 0
Fits RunStatus.error none (some e) = e.retriable ≡ true
Fits RunStatus.ok (some c) none = Unit
Fits RunStatus.skipped (some c) none = Unit
Fits _ _ _ = Nowhere

abbrev pub IsCoherent : ReviewResult → Type 0
IsCoherent r = Fits r.status r.comment r.error

pub error_result-IsCoherent :
    (input : ReviewInput) (runner_id model message : String)
    → IsCoherent (error_result input runner_id model message)
unfolding error_result
error_result-IsCoherent input runner_id model message = refl

answer-Fits : (s : OutputStatus) (comment : String) → Fits (run_status s) (some comment) none
answer-Fits ok comment = tt
answer-Fits skipped comment = tt

with_output-IsCoherent :
    (input : ReviewInput) (runner_id : String) (env : Envelope) (out : String ⊎ ModelOutput)
    → IsCoherent (with_output input runner_id env out)
with_output-IsCoherent input runner_id env (inl message) = refl
with_output-IsCoherent input runner_id env (inr parsed) = answer-Fits parsed.status parsed.comment

pub build_review_result-IsCoherent :
    {J : Type 0} (reader : AnswerReader J) (input : ReviewInput) (runner_id : String)
    (env : Envelope)
    → IsCoherent (build_review_result reader input runner_id env)
unfolding build_review_result
build_review_result-IsCoherent reader input runner_id env =
    with_output-IsCoherent input runner_id env _
