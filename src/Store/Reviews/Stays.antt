-- ===== src/Store/Reviews/Stays.antt =====
-- What becomes of a head that is reviewed: the statements of src/store/sqlite-store.ts on
-- `review_runs`, in any order.
use previewer.Prelude.{
  ℕ, ◌≡◌, refl, inl, inr, Bool, true, false, Option, none, some, List, [], ◌∷◌, arith, All, find,
  delete_where, Bool-cases,
}
use previewer.Core.Keys.{ReviewKey, same_key}
use previewer.Core.State.{ReviewRun}
use previewer.Store.Reviews.{
  RowStatus, RunRow, is_error, record_run, Runs, row_status, for_key, is_running, is_covered,
  is_reclaimable, claim_review, owned_claim, release_claim, is_reviewed,
}
use previewer.Store.Reviews.Unique.{
  IsUnique, claim_review-IsUnique, release_claim-IsUnique, record_run-IsUnique, Call, claims,
  releases, records, run,
}
use previewer.Store.Reviews.Claims.{is_free, same_eq, claim_review_exact}
use previewer.Store.Reviews.Records.{row_covers, is_reviewed-find, is_reviewed-record_run}

-- A statement that does not undo the review of the head: no forced claim of it, and no record of a run
-- of it that failed. Whatever is released, and whatever concerns other heads, is such a one.
abbrev pub Respects : ReviewKey → Call → Type 0
Respects key (claims now k force stale_ms claim_id) = same_key k key ≡ true → force ≡ false
Respects key (releases k claim_id) = Unit
Respects key (records r) = same_key r.key key ≡ true → is_covered (row_status r.status) ≡ true

covered_quiet : (s : RowStatus) → is_running s ≡ true → is_covered s ≡ false
covered_quiet RowStatus.running h = refl
covered_quiet RowStatus.ok h = absurd (ground (arith, h))
covered_quiet RowStatus.skipped h = absurd (ground (arith, h))
covered_quiet RowStatus.error h = absurd (ground (arith, h))

-- A covered row is not to be had without force.
covered_busy : (s : RowStatus) → is_covered s ≡ true → (is_error s ≡ false) × (is_running s ≡ false)
covered_busy RowStatus.ok h = (refl, refl)
covered_busy RowStatus.skipped h = (refl, refl)
covered_busy RowStatus.running h = absurd (ground (arith, h))
covered_busy RowStatus.error h = absurd (ground (arith, h))

module _ (key : ReviewKey) where
  release-reviewed :
      (k : ReviewKey) (claim_id : ℕ) (runs : Runs)
      → is_reviewed key (release_claim k claim_id runs) ≡ is_reviewed key runs
  unfolding is_reviewed release_claim owned_claim delete_where
  release-reviewed k claim_id [] = refl
  release-reviewed k claim_id (x ∷ runs) =
      ground (arith, covered_quiet x.status, release-reviewed k claim_id runs)

  covered-free :
      (now stale_ms : ℕ) (o : Option RunRow)
      → row_covers o ≡ true
      → is_free now false stale_ms o ≡ false
  unfolding is_reclaimable
  covered-free now stale_ms none h = absurd (ground (arith, h))
  covered-free now stale_ms (some r) h = ground (arith, covered_busy r.status h)

  claim-reviewed :
      (now : ℕ) (k : ReviewKey) (force : Bool) (stale_ms claim_id : ℕ) (runs : Runs)
      → IsUnique runs
      → (same_key k key ≡ true → force ≡ false)
      → is_reviewed key runs ≡ true
      → is_reviewed key (claim_review now k force stale_ms claim_id runs).0 ≡ true
  claim-reviewed now k force stale_ms claim_id runs u weak h =
      let after = (claim_review now k force stale_ms claim_id runs).0 in
      let unique = claim_review-IsUnique now k force stale_ms claim_id runs u in
      let covered : row_covers (find (for_key key) runs) ≡ true =
        rw (is_reviewed-find key runs (u.keys key)) at h in
      elim (claim_review_exact now k force stale_ms claim_id runs) [
        | inr (_, same) ↦ rw same h
        | inl (free, granted) ↦ elim (Bool-cases (same_key k key)) [
          | inl e ↦
              let busy = covered-free now stale_ms (find (for_key key) runs) covered in
              absurd (ground (arith, busy, rw (weak e, same_eq k key e) at free))
          | inr e ↦ rw (is_reviewed-find key after (unique.keys key), granted.1 key, e) covered
        ]
      ]

  record-reviewed :
      (r : ReviewRun) (runs : Runs)
      → IsUnique runs
      → (same_key r.key key ≡ true → is_covered (row_status r.status) ≡ true)
      → is_reviewed key runs ≡ true
      → is_reviewed key (record_run r runs) ≡ true
  record-reviewed r runs u covers h = elim (Bool-cases (same_key r.key key)) [
    | inl e ↦ rw (is_reviewed-record_run r runs key u, e) (covers e)
    | inr e ↦ rw (is_reviewed-record_run r runs key u, e) h
  ]

  -- A head that is reviewed stays so: whatever claims, releases and records follow, in any order, of any
  -- heads, unless a claim of this head is forced or a failed run of it is recorded.
  pub reviewed_stays :
      (cs : List Call) (runs : Runs)
      → IsUnique runs
      → All (Respects key) cs
      → is_reviewed key runs ≡ true
      → is_reviewed key (run runs cs) ≡ true
  unfolding run
  reviewed_stays [] runs u respected h = h
  reviewed_stays (claims now k force stale_ms claim_id ∷ cs) runs u respected h =
      reviewed_stays cs _ (claim_review-IsUnique now k force stale_ms claim_id runs u) respected.1
        (claim-reviewed now k force stale_ms claim_id runs u respected.0 h)
  reviewed_stays (releases k claim_id ∷ cs) runs u respected h =
      reviewed_stays cs _ (release_claim-IsUnique k claim_id runs u) respected.1
        (rw (release-reviewed k claim_id runs) h)
  reviewed_stays (records r ∷ cs) runs u respected h =
      reviewed_stays cs _ (record_run-IsUnique r runs u) respected.1
        (record-reviewed r runs u respected.0 h)
