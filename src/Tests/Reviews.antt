-- ===== src/Tests/Reviews.antt =====
-- The tables of the runs and of the deliveries at concrete inputs.
use previewer.Prelude.{
  List, ◌≡◌, refl, ◌⊎◌, true, false, ◌&&◌, none, some, [], ◌∷◌, All, Has, arith, count_where,
}
use previewer.Core.Keys.{review_key, same_key}
use previewer.Core.State.{ReviewRun, RunStatus}
use previewer.Store.Reviews.{
  RunRow, duplicate, claim_review, record_run, covers, newer, last_reviewed_sha, is_reviewed,
}
use previewer.Store.Reviews.Unique.{
  IsUnique-empty, record_run-IsUnique, Call, claims, releases, records, run,
}
use previewer.Store.Reviews.Stays.{reviewed_stays}
use previewer.Store.Reviews.Claims.{claim_review_exclusive}
use previewer.Store.Reviews.Coverage.{last_reviewed_sha-covered}
use previewer.Tests.Data.{a_head, other_head}

abbrev failed_run : ReviewRun
failed_run = record {
  id = 31;
  key = a_head;
  base_sha = none;
  runner = some "codex-cli";
  model = none;
  reasoning_effort = none;
  profile = none;
  status = RunStatus.error;
  comment_id = none;
  tokens_in = 0;
  tokens_out = 0;
  usd = 0;
  duration_ms = 0;
  error = some "timeout";
  started_at = 2_000;
  finished_at = some 3_000;
}

claim_review_exclusive_example :
    claim_review 1_500 a_head false 900_000 22 (claim_review 1_000 a_head false 900_000 21 []).0
    ≡ ((claim_review 1_000 a_head false 900_000 21 []).0, duplicate)
unfolding claim_review
claim_review_exclusive_example =
    claim_review_exclusive 1_000 1_500 a_head false 900_000 21 22 [] refl (omega arith)

-- A run of the head is recorded; another head is claimed by force, and fails.
abbrev reviewed_run : ReviewRun
reviewed_run = record failed_run { status = RunStatus.ok; error = none }

abbrev some_calls : List Call
some_calls =
    claims 4_000 a_head false 900_000 41
    ∷ releases a_head 31
    ∷ claims 5_000 other_head true 900_000 42
    ∷ records (record failed_run { key = other_head })
    ∷ []

reviewed_stays_example : is_reviewed a_head (run (record_run reviewed_run []) some_calls) ≡ true
unfolding record_run is_reviewed same_key
reviewed_stays_example =
    reviewed_stays a_head some_calls (record_run reviewed_run [])
      (record_run-IsUnique reviewed_run [] IsUnique-empty)
      (λ e. refl, (tt, (λ e. ground (arith, e), (λ e. ground (arith, e), tt)))) refl

last_reviewed_sha-covered_example :
    ((last_reviewed_sha "acme/api" 7 (record_run failed_run []) ≡ none)
      × (count_where (covers "acme/api" 7) (record_run failed_run []) ≡ 0))
    ⊎ ((r : RunRow) × (last_reviewed_sha "acme/api" 7 (record_run failed_run []) ≡ some r.head_sha)
        × Has r (record_run failed_run [])
        × (is_reviewed (review_key "acme/api" 7 r.head_sha) (record_run failed_run []) ≡ true)
        × All (λ x. (covers "acme/api" 7 x && newer x r) ≡ false) (record_run failed_run []))
last_reviewed_sha-covered_example =
    last_reviewed_sha-covered "acme/api" 7 (record_run failed_run [])
