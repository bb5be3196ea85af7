-- ===== src/Runners/Delivery.antt =====
-- What becomes of a review of either command-line reviewer: the runners of src/runners/cli in
-- `reviewPipeline` of src/apps/worker/pipeline.ts.
use previewer.Prelude.{ℕ, ◌≡◌, refl, ◌⊎◌, inl, inr, String, true, false, Option, none, some, List}
use previewer.Core.Text.{Text}
use previewer.Core.State.{RunStatus}
use previewer.Core.Failure.{Thrown}
use previewer.Store.Reviews.{Runs, record_run}
use previewer.Worker.Outcome.{ReviewRequest, PipelineOutcome, returned, threw}
use previewer.Worker.Input.{PullRequestMeta, ReviewInput, ReviewResult, RunError}
use previewer.Worker.Review.{RunContext, PipelineDeps, Draws, to_run}
use previewer.Worker.Pipeline.{finish_review, publish}
use previewer.Runners.Streams.{CliResult}
use previewer.Runners.Events.{Value}
use previewer.Runners.Executor.{CliCall}
use previewer.Runners.Results.Coherence.{Fits, IsCoherent}
use previewer.Runners.Claude.{ClaudeOptions, RunnerHost, claude_review}
use previewer.Runners.Codex.{CodexOptions, codex_review}
use previewer.Runners.Adapters.{claude_review-IsCoherent, codex_review-IsCoherent}

module _ (deps : PipelineDeps) (req : ReviewRequest) (pr : PullRequestMeta) (draws : Draws)
    (effort : Option String) (runs : Runs) where
  -- A result ends in one of three ways: its error is recorded and returned as one to retry, with no
  -- comment; or its comment is published, and the run is recorded with the comment's id; or the
  -- publication throws, and nothing is recorded.
  abbrev pub Delivers : ReviewResult → Type 0
  Delivers r =
      ((e : RunError) × (r.error ≡ some e)
        × (finish_review deps req pr draws effort runs r ≡ (
          record_run (to_run req pr draws r none effort) runs,
          returned (PipelineOutcome.error e.message true),
        )))
      ⊎ ((body : String) × (r.comment ≡ some body)
          × (((i : ℕ) × (deps.upsert_review_comment req.repo req.pr_number pr.head_sha body ≡ inr i)
                × (finish_review deps req pr draws effort runs r ≡ (
                  record_run (to_run req pr draws r (some i) effort) runs,
                  returned (PipelineOutcome.reviewed (some i)),
                )))
              ⊎ ((err : Thrown) × (deps.upsert_review_comment req.repo req.pr_number pr.head_sha
                      body
                    ≡ inl err)
                  × (finish_review deps req pr draws effort runs r ≡ (runs, threw err)))))

  -- A result with a comment, whose status is not `error`
  published :
      (r : ReviewResult) (body : String) (out : Thrown ⊎ ℕ)
      → req.dry_run ≡ false
      → r.comment ≡ some body
      → (r.status ≡ RunStatus.ok) ⊎ (r.status ≡ RunStatus.skipped)
      → deps.upsert_review_comment req.repo req.pr_number pr.head_sha body ≡ out
      → Delivers r
  unfolding finish_review
  published r body (inl err) wet says (inl ok) upsert =
      inr (body, says, inr (err, upsert, rw (finish_review, wet, ok, says, publish, upsert) refl))
  published r body (inl err) wet says (inr skipped) upsert =
      inr (
        body,
        says,
        inr (err, upsert, rw (finish_review, wet, skipped, says, publish, upsert) refl),
      )
  published r body (inr i) wet says (inl ok) upsert =
      inr (body, says, inl (i, upsert, rw (finish_review, wet, ok, says, publish, upsert) refl))
  published r body (inr i) wet says (inr skipped) upsert =
      inr
        (body, says, inl (i, upsert, rw (finish_review, wet, skipped, says, publish, upsert) refl))

  Fits-Delivers :
      (r : ReviewResult) (s : RunStatus) (c : Option String) (e : Option RunError)
      → req.dry_run ≡ false
      → r.status ≡ s
      → r.comment ≡ c
      → r.error ≡ e
      → Fits s c e
      → Delivers r
  unfolding finish_review
  Fits-Delivers r RunStatus.error none (some e) wet status says failed retriable =
      inl (e, failed, rw (finish_review, wet, status, failed, retriable) refl)
  Fits-Delivers r RunStatus.ok (some body) none wet status says failed fits =
      published r body _ wet says (inl status) refl
  Fits-Delivers r RunStatus.skipped (some body) none wet status says failed fits =
      published r body _ wet says (inr status) refl
  Fits-Delivers r RunStatus.error none none wet status says failed fits = elim fits [ ]
  Fits-Delivers r RunStatus.error (some body) e wet status says failed fits = elim fits [ ]
  Fits-Delivers r RunStatus.ok none e wet status says failed fits = elim fits [ ]
  Fits-Delivers r RunStatus.ok (some body) (some e) wet status says failed fits = elim fits [ ]
  Fits-Delivers r RunStatus.skipped none e wet status says failed fits = elim fits [ ]
  Fits-Delivers r RunStatus.skipped (some body) (some e) wet status says failed fits = elim fits [ ]

  IsCoherent-Delivers : (r : ReviewResult) → req.dry_run ≡ false → IsCoherent r → Delivers r
  IsCoherent-Delivers r wet h = Fits-Delivers r r.status r.comment r.error wet refl refl refl h

  module _ {J : Type 0} (host : RunnerHost J) (input : ReviewInput) (ctx : RunContext) where
    -- Whatever the programs print or throw: in a run that is not dry, what either reviewer answers ends in
    -- one of three ways. It is an error that is recorded, and returned to be tried again; or a comment that
    -- is published, and the run is recorded with it; or a comment whose publication throws, and nothing is
    -- recorded.
    pub reviews-Deliver :
        (claude_opts : ClaudeOptions) (claude : ℕ → CliCall → Text ⊎ CliResult)
        (codex_opts : CodexOptions) (parse_event : Text → Option Value) (output_schema : String)
        (collect : String → List Text → ℕ → Text) (codex : CliCall → Text ⊎ CliResult) (elapsed : ℕ)
        → req.dry_run ≡ false
        → Delivers (claude_review host claude_opts claude input ctx)
          × Delivers (
              codex_review host codex_opts parse_event output_schema collect codex elapsed input
                ctx)
    reviews-Deliver claude_opts claude codex_opts parse_event output_schema collect codex elapsed
          wet =
        (
          IsCoherent-Delivers _ wet (claude_review-IsCoherent host claude_opts claude input ctx),
          IsCoherent-Delivers _ wet (
              codex_review-IsCoherent host codex_opts parse_event output_schema collect input ctx
                elapsed codex),
        )
