-- ===== src/Worker/Pipeline/Ends.antt =====
-- How a review that was granted its claim ends: one of the three ways of `Ends`.
use previewer.Prelude.{
  ℕ, ◌≡◌, refl, ◌∙◌, inl, inr, Bool, true, false, Option, none, some, arith, find, if◌then◌else◌,
  ==_iff,
}
use previewer.Core.Keys.{ReviewKey, review_key, same_key_refl}
use previewer.Core.State.{ReviewRun, RunStatus}
use previewer.Core.Failure.{Thrown}
use previewer.Store.Reviews.{
  Runs, RunRow, for_key, row_status, is_running, is_covered, default_stale_ms, Claim, claimed,
  duplicate, claim_review, release_claim, record_run,
}
use previewer.Store.Reviews.Unique.{
  IsUnique, claim_review-IsUnique, release_claim-IsUnique, record_run-IsUnique,
}
use previewer.Store.Reviews.Claims.{
  claimed_row, claimed_row_running, claim_review_exact, release_claim_owner,
}
use previewer.Store.Reviews.Records.{recorded_row, find-record_run}
use previewer.Worker.Outcome.{ReviewRequest, PipelineOutcome, Ran, returned, threw}
use previewer.Worker.Input.{PullRequestMeta}
use previewer.Worker.Review.{PipelineDeps, Draws}
use previewer.Worker.Pipeline.{release_on_throw, review_claimed, answered, claim_and_review}
use previewer.Worker.Pipeline.Leaves.{
  Leaves, failed, recorded, failed_late, settles_head, try_review-Leaves,
}

-- How a review that was granted its claim ends, for the row of its head and the outcome.
pub data Ends : Option RunRow → Ran → Type 0 where
  done :
      (r : RunRow) (o : PipelineOutcome)
      → is_running r.status ≡ false
      → is_covered r.status ≡ settles_head o
      → Ends (some r) (returned o)
  freed : (err : Thrown) → Ends none (threw err)
  kept : (r : RunRow) (err : Thrown) → is_running r.status ≡ false → Ends (some r) (threw err)

not_running : (s : RunStatus) → is_running (row_status s) ≡ false
not_running RunStatus.ok = refl
not_running RunStatus.skipped = refl
not_running RunStatus.error = refl

module _ (req : ReviewRequest) (key : ReviewKey) (claim_id : ℕ) (runs : Runs) (row : RunRow)
    (real : req.dry_run ≡ false) (u : IsUnique runs) (here : find (for_key key) runs ≡ some row)
    (active : is_running row.status ≡ true) (mine : row.id ≡ claim_id) where
  -- The row that a run of the head records.
  found :
      (r : ReviewRun)
      → r.key ≡ key
      → find (for_key key) (record_run r runs) ≡ some (recorded_row r (some row))
  found r same = rw (find-record_run r runs key, same, same_key_refl key, here) refl

  settled :
      (out : Runs × Ran)
      → Leaves key runs out
      → Ends
          (find (for_key key) (release_on_throw req key claim_id out).0)
          (release_on_throw req key claim_id out).1
  settled out (failed err) =
      let gone : find (for_key key) (release_claim key claim_id runs) ≡ none =
        rw
          (
            release_claim_owner key key claim_id runs row u here,
            same_key_refl key,
            active,
            mine,
            (==_iff claim_id claim_id).1 refl,
          )
          refl in
      rw (real, gone) (freed err)
  settled out (recorded r o same agrees) =
      rw (found r same) (done (recorded_row r (some row)) o (not_running r.status) agrees)
  settled out (failed_late r err same) =
      let after = record_run r runs in
      let stays : find (for_key key) (release_claim key claim_id after)
          ≡ some (recorded_row r (some row)) =
        rw
          (
            release_claim_owner key key claim_id after (recorded_row r (some row))
                (record_run-IsUnique r runs u) (found r same),
            same_key_refl key,
            not_running r.status,
          )
          (found r same) in
      rw (real, stays) (kept (recorded_row r (some row)) err (not_running r.status))

if_false : {A : Type 0} (b : Bool) (x y : A) → b ≡ false → (if b then x else y) ≡ y
if_false true x y h = absurd (ground (arith, h))
if_false false x y h = refl

Leaves-IsUnique :
    (key : ReviewKey) (runs : Runs) (out : Runs × Ran)
    → IsUnique runs
    → Leaves key runs out
    → IsUnique out.0
Leaves-IsUnique key runs out u (failed err) = u
Leaves-IsUnique key runs out u (recorded r o same agrees) = record_run-IsUnique r runs u
Leaves-IsUnique key runs out u (failed_late r err same) = record_run-IsUnique r runs u

release_on_throw-IsUnique :
    (req : ReviewRequest) (key : ReviewKey) (claim_id : ℕ) (out : Runs × Ran)
    → req.dry_run ≡ false
    → IsUnique out.0
    → IsUnique (release_on_throw req key claim_id out).0
release_on_throw-IsUnique req key claim_id (runs, returned o) real u = u
release_on_throw-IsUnique req key claim_id (runs, threw err) real u =
    rw real (release_claim-IsUnique key claim_id runs u)

module _ (deps : PipelineDeps) (req : ReviewRequest) (pr : PullRequestMeta) (draws : Draws)
    (runs : Runs) where
  abbrev pub head : ReviewKey
  head = review_key req.repo req.pr_number pr.head_sha

  abbrev pub claim : Runs × Claim
  claim = claim_review draws.claimed_at head req.force default_stale_ms draws.claim_id runs

  pub claimed-Ends :
      req.dry_run ≡ false
      → IsUnique runs
      → claim.1 ≡ claimed
      → Ends
          (find (for_key head) (review_claimed deps req pr draws claim.0).0)
          (review_claimed deps req pr draws claim.0).1
  unfolding review_claimed
  claimed-Ends real u won =
      elim (claim_review_exact draws.claimed_at head req.force default_stale_ms draws.claim_id
        runs) [
          | inr (_, lost) ↦ absurd (ground (arith, lost, won))
          | inl (_, granted) ↦
              let row =
                claimed_row draws.claimed_at head draws.claim_id (find (for_key head) runs) in
              let here : find (for_key head) claim.0 ≡ some row =
                rw (granted.1 head, same_key_refl head) in
              let (active, mine) =
                claimed_row_running draws.claimed_at head draws.claim_id
                  (find (for_key head) runs) in
              let unique =
                claim_review-IsUnique draws.claimed_at head req.force default_stale_ms
                  draws.claim_id runs u in
              settled req head draws.claim_id claim.0 row real unique here active mine _
                (try_review-Leaves deps req pr draws claim.0 real)
        ]

  pub claimed-IsUnique :
      req.dry_run ≡ false → IsUnique runs → IsUnique (review_claimed deps req pr draws claim.0).0
  unfolding review_claimed
  claimed-IsUnique real u =
      let unique =
        claim_review-IsUnique draws.claimed_at head req.force default_stale_ms draws.claim_id runs
          u in
      release_on_throw-IsUnique req head draws.claim_id _ real
        (Leaves-IsUnique head claim.0 _ unique (try_review-Leaves deps req pr draws claim.0 real))

  answered_claimed :
      (c : Runs × Claim)
      → c.1 ≡ claimed
      → answered deps req pr draws c ≡ review_claimed deps req pr draws c.0
  unfolding answered
  answered_claimed (after, claimed) won = refl
  answered_claimed (after, duplicate) won = absurd (ground (arith, won))

  pub past_claim :
      req.dry_run ≡ false
      → claim.1 ≡ claimed
      → claim_and_review deps req pr draws runs ≡ review_claimed deps req pr draws claim.0
  unfolding claim_and_review
  past_claim real won =
      if_false req.dry_run (review_claimed deps req pr draws runs) _ real
      ∙ answered_claimed claim won
