-- ===== src/Store/Reviews/Unique.antt =====
-- A head has one row at most, whatever is claimed, released and recorded.
use previewer.Prelude.{
  ℕ, ◌≤◌, ◌≡◌, refl, inl, inr, Bool, true, false, none, List, [], ◌∷◌, ◌++◌, arith, if◌then◌else◌,
  find, Option-cases, update_where, count_where, count_where-update_where, count_where-append,
  count_where-delete_where-le, count-zero_of_find,
}
use previewer.Core.Keys.{ReviewKey, same_key, same_key_iff}
use previewer.Core.State.{ReviewRun}
use previewer.Store.Reviews.{
  RunRow, Runs, for_key, Claim, is_reclaimable, placeholder, reclaim_row, claim_review, owned_claim,
  release_claim, record_row, finish_row, record_run,
}

pub record IsUnique (runs : Runs) : Type 0 where
  pub keys : (k : ReviewKey) → count_where (for_key k) runs ≤ 1

pub IsUnique-empty : IsUnique []
unfolding count_where
IsUnique-empty = record { keys = λ k. omega arith }

update-IsUnique :
    (q : RunRow → Bool) (g : RunRow → RunRow) (runs : Runs)
    → ((r : RunRow) → (g r).key ≡ r.key)
    → IsUnique runs
    → IsUnique (update_where q g runs)
update-IsUnique q g runs keeps u = record {
  keys = λ k. rw (count_where-update_where (for_key k) q g (λ r. rw keeps)) (u.keys k);
}

insert-IsUnique :
    (row : RunRow) (runs : Runs)
    → find (for_key row.key) runs ≡ none
    → IsUnique runs
    → IsUnique (runs ++ row ∷ [])
unfolding count_where
insert-IsUnique row runs miss u = record {
  keys = λ k.
      let other = λ (same : same_key row.key k ≡ true).
        (let e = (same_key_iff row.key k).0 same in
          rw e at (count-zero_of_find (for_key row.key) runs miss)) in
      ground (arith, u.keys k, other, count_where-append (for_key k) runs (row ∷ []));
}

if_IsUnique :
    (b : Bool) (s t : Runs × Claim) → IsUnique s.0 → IsUnique t.0 → IsUnique (if b then s else t).0
if_IsUnique true s t us ut = us
if_IsUnique false s t us ut = ut

pub claim_review-IsUnique :
    (now : ℕ) (key : ReviewKey) (force : Bool) (stale_ms claim_id : ℕ) (runs : Runs)
    → IsUnique runs
    → IsUnique (claim_review now key force stale_ms claim_id runs).0
unfolding claim_review reclaim_row
claim_review-IsUnique now key force stale_ms claim_id runs u =
    elim (Option-cases (find (for_key key) runs)) [
      | inl e ↦ rw (e, claim_review) (insert-IsUnique (placeholder now key claim_id) runs e u)
      | inr (r, e) ↦
          rw (e, claim_review)
            (if_IsUnique (is_reclaimable now force stale_ms r) _ _
              (update-IsUnique (for_key key) (reclaim_row now claim_id) runs (λ x. refl) u) u)
    ]

pub release_claim-IsUnique :
    (key : ReviewKey) (claim_id : ℕ) (runs : Runs)
    → IsUnique runs
    → IsUnique (release_claim key claim_id runs)
unfolding release_claim
release_claim-IsUnique key claim_id runs u = record {
  keys = λ k.
      omega
        (arith, u.keys k, count_where-delete_where-le (for_key k) (owned_claim key claim_id) runs);
}

pub record_run-IsUnique :
    (run : ReviewRun) (runs : Runs) → IsUnique runs → IsUnique (record_run run runs)
unfolding record_run finish_row
record_run-IsUnique run runs u = elim (Option-cases (find (for_key run.key) runs)) [
  | inl e ↦ rw (e, record_run) (insert-IsUnique (record_row run) runs e u)
  | inr (r, e) ↦
      rw (e, record_run) (update-IsUnique (for_key run.key) (finish_row run) runs (λ x. refl) u)
]

-- A statement of the store on `review_runs`.
pub data Call : Type 0 where
  claims : ℕ → ReviewKey → Bool → ℕ → ℕ → Call
  releases : ReviewKey → ℕ → Call
  records : ReviewRun → Call

unfoldable pub step : Runs → Call → Runs
step runs (claims now key force stale_ms claim_id) =
    (claim_review now key force stale_ms claim_id runs).0
step runs (releases key claim_id) = release_claim key claim_id runs
step runs (records run) = record_run run runs

unfoldable pub run : Runs → List Call → Runs
unfolding step
run runs [] = runs
run runs (c ∷ cs) = run (step runs c) cs
