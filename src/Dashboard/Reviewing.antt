-- ===== src/Dashboard/Reviewing.antt =====
-- The runs that the status page shows as going on, against the claims of src/store/sqlite.ts.
use previewer.Prelude.{ℕ, ◌≡◌, refl, true, false, some, find, if◌then◌else◌, arith}
use previewer.Core.Keys.{ReviewKey}
use previewer.Store.Queue.{Jobs}
use previewer.Store.Reviews.{
  RunRow, RowStatus, Runs, claimed, duplicate, for_key, is_running, is_error, default_stale_ms,
  is_reclaimable, claim_review,
}
use previewer.Dashboard.Queries.{reviewer_now}

running-not_error : (s : RowStatus) → is_running s ≡ true → is_error s ≡ false
running-not_error RowStatus.running h = refl
running-not_error RowStatus.error h = absurd (ground (arith, h))
running-not_error RowStatus.ok h = refl
running-not_error RowStatus.skipped h = refl

-- A run that goes on is shown as stale exactly when a claim of its key that is made at that time,
-- without force and with the default limit, is granted.
claim_review-stale :
    (at claim_id : ℕ) (jobs : Jobs) (runs : Runs) (key : ReviewKey) (r : RunRow)
    → find (for_key key) runs ≡ some r
    → is_running r.status ≡ true
    → (claim_review at key false default_stale_ms claim_id runs).1
      ≡ (if (reviewer_now at jobs r).stale then claimed else duplicate)
unfolding claim_review is_reclaimable reviewer_now
claim_review-stale at claim_id jobs runs key r found running =
    rw (found, claim_review) (ground (arith, running, running-not_error r.status running))
