-- ===== src/Worker/Pipeline/Claims.antt =====
-- A review never leaves its head claimed.
use previewer.Prelude.{ℕ, ◌≡◌, refl, ◌∙◌, ◌⊎◌, inl, inr, true, false, Option, arith, find}
use previewer.Core.Keys.{ReviewKey, review_key}
use previewer.Core.Failure.{Thrown}
use previewer.Store.Reviews.{
  Runs, RunRow, RowStatus, for_key, is_running, is_error, is_covered, default_stale_ms, claimed,
  claim_review, is_reviewed, is_reclaimable,
}
use previewer.Store.Reviews.Unique.{IsUnique}
use previewer.Store.Reviews.Claims.{claim_review_exact, is_free}
use previewer.Store.Reviews.Records.{is_reviewed-find, row_covers}
use previewer.Worker.Outcome.{ReviewRequest, threw}
use previewer.Worker.Input.{PullRequestMeta}
use previewer.Worker.Review.{PipelineDeps, Draws}
use previewer.Worker.Pipeline.{review_claimed, claim_and_review}
use previewer.Worker.Pipeline.Ends.{
  Ends, freed, kept, claim, claimed-Ends, claimed-IsUnique, past_claim,
}

-- A review that was granted its claim never leaves its head claimed, whatever the environment does:
-- if it returns, its row is settled and covers the head unless the outcome is an error; if it
-- throws, the row is gone, or the run is recorded and only the clean-up failed.
pub claim_and_review-Ends :
    (deps : PipelineDeps) (req : ReviewRequest) (pr : PullRequestMeta) (draws : Draws) (runs : Runs)
    → req.dry_run ≡ false
    → IsUnique runs
    → (claim_review draws.claimed_at
        (review_key req.repo req.pr_number pr.head_sha)
        req.force
        default_stale_ms
        draws.claim_id
        runs).1
      ≡ claimed
    → Ends
        (find
          (for_key (review_key req.repo req.pr_number pr.head_sha))
          (claim_and_review deps req pr draws runs).0)
        (claim_and_review deps req pr draws runs).1
claim_and_review-Ends deps req pr draws runs real u won =
    rw (past_claim deps req pr draws runs real won) (claimed-Ends deps req pr draws runs real u won)

quiet_status : (s : RowStatus) → is_running s ≡ false → (is_error s ≡ true) ⊎ (is_covered s ≡ true)
quiet_status RowStatus.running h = absurd (ground (arith, h))
quiet_status RowStatus.ok h = inr refl
quiet_status RowStatus.skipped h = inr refl
quiet_status RowStatus.error h = inl refl

free_or_covered :
    (later stale_ms : ℕ) (o : Option RunRow) (err : Thrown)
    → Ends o (threw err)
    → (is_free later false stale_ms o ≡ true) ⊎ (row_covers o ≡ true)
unfolding is_reclaimable
free_or_covered later stale_ms o err (freed _) = inl refl
free_or_covered later stale_ms o err (kept r _ quiet) = elim (quiet_status r.status quiet) [
  | inl failed_run ↦ inl (rw failed_run refl)
  | inr covered ↦ inr covered
]

free_claimed :
    (later : ℕ) (key : ReviewKey) (stale_ms theirs : ℕ) (runs : Runs)
    → is_free later false stale_ms (find (for_key key) runs) ≡ true
    → (claim_review later key false stale_ms theirs runs).1 ≡ claimed
free_claimed later key stale_ms theirs runs free =
    elim (claim_review_exact later key false stale_ms theirs runs) [
      | inl (_, granted) ↦ granted.0
      | inr (busy, _) ↦ absurd (ground (arith, free, busy))
    ]

-- A review that was granted its claim and throws is not lost: at any later time another claim of the
-- head, without force, is granted, so that the retry reviews it; but if the run was recorded before
-- the clean-up threw and it covers the head, the head counts as reviewed.
pub claim_and_review-retries :
    (deps : PipelineDeps) (req : ReviewRequest) (pr : PullRequestMeta) (draws : Draws) (runs : Runs)
    (err : Thrown) (later stale_ms theirs : ℕ)
    → req.dry_run ≡ false
    → IsUnique runs
    → (claim_review draws.claimed_at
        (review_key req.repo req.pr_number pr.head_sha)
        req.force
        default_stale_ms
        draws.claim_id
        runs).1
      ≡ claimed
    → (claim_and_review deps req pr draws runs).1 ≡ threw err
    → ((claim_review later
          (review_key req.repo req.pr_number pr.head_sha)
          false
          stale_ms
          theirs
          (claim_and_review deps req pr draws runs).0).1
        ≡ claimed)
      ⊎ (is_reviewed
            (review_key req.repo req.pr_number pr.head_sha)
            (claim_and_review deps req pr draws runs).0
          ≡ true)
claim_and_review-retries deps req pr draws runs err later stale_ms theirs real u won ran =
    let key = review_key req.repo req.pr_number pr.head_sha in
    let after = (review_claimed deps req pr draws (claim deps req pr draws runs).0).0 in
    let ends = claimed-Ends deps req pr draws runs real u won in
    let unique = claimed-IsUnique deps req pr draws runs real u in
    let past = past_claim deps req pr draws runs real won in
    let same : (review_claimed deps req pr draws (claim deps req pr draws runs).0).1 ≡ threw err =
      rw past at ran in
    rw past
      (elim (free_or_covered later stale_ms (find (for_key key) after) err (rw same at ends)) [
        | inl free ↦ inl (free_claimed later key stale_ms theirs after free)
        | inr covered ↦ inr (is_reviewed-find key after (unique.keys key) ∙ covered)
      ])
