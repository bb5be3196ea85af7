-- ===== src/Worker/Pipeline/Leaves.antt =====
-- What a review leaves in the table of the runs, on every path through it.
use previewer.Prelude.{
  ℕ, ◌≡◌, refl, ◌⊎◌, inl, inr, String, Bool, true, false, Option, none, some, Option-cases,
}
use previewer.Core.Keys.{ReviewKey, review_key}
use previewer.Core.State.{ReviewRun, RunStatus}
use previewer.Core.Failure.{Thrown}
use previewer.Store.Reviews.{Runs, row_status, is_covered, record_run}
use previewer.Worker.Outcome.{ReviewRequest, PipelineOutcome, Ran, returned, threw}
use previewer.Worker.Gate.{GatingDecision, skip, review}
use previewer.Worker.Input.{PullRequestMeta, PreparedWorkspace, ReviewResult}
use previewer.Worker.Review.{PipelineDeps, Draws, attempt, unless, skip_run, to_run}
use previewer.Worker.Pipeline.{
  outcome_of, publish, finish_review, run_review, on_decision, review_workspace, release_on_throw,
  review_claimed, with_cleanup, try_review, install_failure,
}

-- Does an outcome past the claim leave its head reviewed?
abbrev pub settles_head : PipelineOutcome → Bool
settles_head (PipelineOutcome.error message retriable) = false
settles_head _ = true

-- The table and the end of a review: it fails and leaves the table, or records one run of its head
-- that agrees with the outcome, after which only the clean-up may still throw.
pub data Leaves (key : ReviewKey) (runs : Runs) : Runs × Ran → Type 0 where
  failed : (err : Thrown) → Leaves key runs (runs, threw err)
  recorded :
      (r : ReviewRun) (o : PipelineOutcome)
      → r.key ≡ key
      → is_covered (row_status r.status) ≡ settles_head o
      → Leaves key runs (record_run r runs, returned o)
  failed_late :
      (r : ReviewRun) (err : Thrown) → r.key ≡ key → Leaves key runs (record_run r runs, threw err)

module _ (key : ReviewKey) (runs : Runs) where
  attempt-Leaves :
      {A : Type 0} (a : Thrown ⊎ A) (next : A → Runs × Ran)
      → ((x : A) → Leaves key runs (next x))
      → Leaves key runs (attempt runs a next)
  attempt-Leaves (inl err) next h = failed err
  attempt-Leaves (inr x) next h = h x

  unless-Leaves :
      (e : Option Thrown) (next : Runs × Ran)
      → Leaves key runs next
      → Leaves key runs (unless runs e next)
  unless-Leaves none next h = h
  unless-Leaves (some err) next h = failed err

  with_cleanup-Leaves :
      (e : Option Thrown) (out : Runs × Ran)
      → Leaves key runs out
      → Leaves key runs (with_cleanup e out)
  with_cleanup-Leaves none out l = l
  with_cleanup-Leaves (some err) out (failed e) = failed err
  with_cleanup-Leaves (some err) out (recorded r o same agrees) = failed_late r err same
  with_cleanup-Leaves (some err) out (failed_late r e same) = failed_late r err same

outcome-agrees :
    (status : RunStatus) (result : ReviewResult) (comment_id : Option ℕ)
    → is_covered (row_status status) ≡ settles_head (outcome_of status result comment_id)
outcome-agrees RunStatus.ok result comment_id = refl
outcome-agrees RunStatus.skipped result comment_id = refl
outcome-agrees RunStatus.error result comment_id = elim (Option-cases result.error) [
  | inl e ↦ rw e refl
  | inr (err, e) ↦ rw e refl
]

module _ (deps : PipelineDeps) (req : ReviewRequest) (pr : PullRequestMeta) (draws : Draws)
    (runs : Runs) (real : req.dry_run ≡ false) where
  abbrev key_of : ReviewKey
  key_of = review_key req.repo req.pr_number pr.head_sha

  finish_review-Leaves :
      (effort : Option String) (result : ReviewResult)
      → Leaves key_of runs (finish_review deps req pr draws effort runs result)
  unfolding finish_review to_run
  finish_review-Leaves effort result = rw real (
      attempt-Leaves key_of runs (publish deps req pr result.status result.comment) _ (λ comment_id.
        recorded (to_run req pr draws result comment_id effort) _ refl
          (outcome-agrees result.status result comment_id)))

  run_review-Leaves :
      (ws : PreparedWorkspace) → Leaves key_of runs (run_review deps req pr draws ws runs)
  unfolding run_review
  run_review-Leaves ws =
      attempt-Leaves key_of runs (deps.resolve req.repo ws.diff.changed_files) _ (λ resolved.
        attempt-Leaves key_of runs _ _ (λ chosen.
          unless-Leaves key_of runs (install_failure deps resolved ws) _
            (attempt-Leaves key_of runs _ _ (finish_review-Leaves _))))

  on_decision-Leaves :
      (ws : PreparedWorkspace) (d : GatingDecision)
      → Leaves key_of runs (on_decision deps req pr draws ws runs d)
  unfolding on_decision skip_run
  on_decision-Leaves ws (skip reason) =
      rw real (recorded (skip_run req pr draws reason) _ refl refl)
  on_decision-Leaves ws (review n) = run_review-Leaves ws

  -- Whatever the environment does, a review that is not a dry run leaves the table or records one
  -- run of its head, whose status agrees with the outcome that is returned.
  pub try_review-Leaves : Leaves key_of runs (try_review deps req pr draws runs)
  unfolding try_review review_workspace
  try_review-Leaves =
      attempt-Leaves key_of runs _ _
        (λ ws. with_cleanup-Leaves key_of runs (deps.cleanup ws) _ (on_decision-Leaves ws _))

-- A dry run leaves the table as it is, whatever happens in it.
module _ (deps : PipelineDeps) (req : ReviewRequest) (pr : PullRequestMeta) (draws : Draws)
    (runs : Runs) (dry : req.dry_run ≡ true) where
  attempt-keeps :
      {A : Type 0} (a : Thrown ⊎ A) (next : A → Runs × Ran)
      → ((x : A) → (next x).0 ≡ runs)
      → (attempt runs a next).0 ≡ runs
  attempt-keeps (inl err) next h = refl
  attempt-keeps (inr x) next h = h x

  unless-keeps :
      (e : Option Thrown) (next : Runs × Ran) → next.0 ≡ runs → (unless runs e next).0 ≡ runs
  unless-keeps none next h = h
  unless-keeps (some err) next h = refl

  with_cleanup-keeps :
      (e : Option Thrown) (out : Runs × Ran) → out.0 ≡ runs → (with_cleanup e out).0 ≡ runs
  with_cleanup-keeps none out h = h
  with_cleanup-keeps (some err) out h = h

  finish_review-keeps :
      (effort : Option String) (result : ReviewResult)
      → (finish_review deps req pr draws effort runs result).0 ≡ runs
  unfolding finish_review
  finish_review-keeps effort result = rw dry refl

  on_decision-keeps :
      (ws : PreparedWorkspace) (d : GatingDecision)
      → (on_decision deps req pr draws ws runs d).0 ≡ runs
  unfolding on_decision run_review
  on_decision-keeps ws (skip reason) = rw dry refl
  on_decision-keeps ws (review n) =
      attempt-keeps (deps.resolve req.repo ws.diff.changed_files) _ (λ resolved.
        attempt-keeps _ _ (λ chosen.
          unless-keeps (install_failure deps resolved ws) _
            (attempt-keeps _ _ (finish_review-keeps _))))

  pub try_review-keeps : (try_review deps req pr draws runs).0 ≡ runs
  unfolding try_review review_workspace
  try_review-keeps =
      attempt-keeps _ _ (λ ws. with_cleanup-keeps (deps.cleanup ws) _ (on_decision-keeps ws _))

  release_on_throw-keeps :
      (key : ReviewKey) (claim_id : ℕ) (out : Runs × Ran)
      → out.0 ≡ runs
      → (release_on_throw req key claim_id out).0 ≡ runs
  release_on_throw-keeps key claim_id (after, returned o) h = h
  release_on_throw-keeps key claim_id (after, threw err) h = rw dry h

  pub review_claimed-keeps : (review_claimed deps req pr draws runs).0 ≡ runs
  unfolding review_claimed
  review_claimed-keeps = release_on_throw-keeps _ draws.claim_id _ try_review-keeps
