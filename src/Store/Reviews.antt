-- ===== src/Store/Reviews.antt =====
-- src/store/sqlite-store.ts: the table `review_runs`, both the claims that keep two workers off one
-- head and the record of every finished run. The clock and the UUIDs drawn are arguments.
pub mod Unique
pub mod Claims
pub mod Records
pub mod Stays
pub mod Coverage
use previewer.Prelude.{
  ℕ, ◌+◌, String, Bool, true, false, ◌&&◌, ◌||◌, Option, none, some, List, [], ◌∷◌, ◌++◌, ltb, leb,
  ◌==◌, str_eq, if◌then◌else◌, find, any, get_or, update_where, delete_where, select_first,
}
use previewer.Core.Keys.{ReviewKey, same_key}
use previewer.Core.State.{ReviewRun, RunStatus}
use previewer.Core.LimitError.{is_limit_error}

-- The texts of the column `status`: a claim is `running`, and a record has the run's status.
pub data RowStatus : Type 0 where
  running ok skipped error : RowStatus

pub record RunRow : Type 0 where
  pub id : ℕ
  pub key : ReviewKey
  pub open key use {repo, pr_number, head_sha}
  pub base_sha : Option String
  pub runner : Option String
  pub model : Option String
  pub reasoning_effort : Option String
  pub profile : Option String
  pub status : RowStatus
  pub comment_id : Option ℕ
  pub tokens_in : ℕ
  pub tokens_out : ℕ
  pub usd : ℕ
  pub duration_ms : ℕ
  pub error : Option String
  pub started_at : ℕ
  pub finished_at : Option ℕ

abbrev pub Runs : Type 0
Runs = List RunRow

abbrev pub row_status : RunStatus → RowStatus
row_status RunStatus.ok = RowStatus.ok
row_status RunStatus.skipped = RowStatus.skipped
row_status RunStatus.error = RowStatus.error

abbrev pub for_key : ReviewKey → RunRow → Bool
for_key k r = same_key r.key k

abbrev pub is_running : RowStatus → Bool
is_running RowStatus.running = true
is_running _ = false

abbrev pub is_error : RowStatus → Bool
is_error RowStatus.error = true
is_error _ = false

-- `status IN ('ok','skipped')`
abbrev pub is_covered : RowStatus → Bool
is_covered RowStatus.ok = true
is_covered RowStatus.skipped = true
is_covered _ = false

-- `15 * 60 * 1000`
abbrev pub default_stale_ms : ℕ
default_stale_ms = 900_000

pub data Claim : Type 0 where
  claimed duplicate : Claim

-- The condition under which a claim may replace the row: `started_at < now - staleMs` is written
-- without the subtraction.
unfoldable pub is_reclaimable : ℕ → Bool → ℕ → RunRow → Bool
is_reclaimable now force stale_ms r =
    force || is_error r.status || (is_running r.status && ltb (r.started_at + stale_ms) now)

abbrev pub placeholder : ℕ → ReviewKey → ℕ → RunRow
placeholder now key claim_id = record {
  id = claim_id;
  key = key;
  base_sha = none;
  runner = none;
  model = none;
  reasoning_effort = none;
  profile = none;
  status = RowStatus.running;
  comment_id = none;
  tokens_in = 0;
  tokens_out = 0;
  usd = 0;
  duration_ms = 0;
  error = none;
  started_at = now;
  finished_at = none;
}

reclaim_row : ℕ → ℕ → RunRow → RunRow
reclaim_row now claim_id r = record r {
  id = claim_id;
  status = RowStatus.running;
  started_at = now;
  finished_at = none;
  error = none;
}

-- `claimReview`; `claim_id` is the caller's, or a fresh UUID.
unfoldable pub claim_review : ℕ → ReviewKey → Bool → ℕ → ℕ → Runs → Runs × Claim
unfolding reclaim_row is_reclaimable
claim_review now key force stale_ms claim_id runs = elim (find (for_key key) runs) [
  | none ↦ (runs ++ placeholder now key claim_id ∷ [], claimed)
  | some r ↦
      if is_reclaimable now force stale_ms r
      then (update_where (for_key key) (reclaim_row now claim_id) runs, claimed)
      else (runs, duplicate)
]

owned_claim : ReviewKey → ℕ → RunRow → Bool
owned_claim key claim_id r = for_key key r && is_running r.status && r.id == claim_id

-- `releaseClaim`
unfoldable pub release_claim : ReviewKey → ℕ → Runs → Runs
unfolding owned_claim
release_claim key claim_id = delete_where (owned_claim key claim_id)

abbrev pub record_row : ReviewRun → RunRow
record_row run = record {
  id = run.id;
  key = run.key;
  base_sha = run.base_sha;
  runner = run.runner;
  model = run.model;
  reasoning_effort = run.reasoning_effort;
  profile = run.profile;
  status = row_status run.status;
  comment_id = run.comment_id;
  tokens_in = run.tokens_in;
  tokens_out = run.tokens_out;
  usd = run.usd;
  duration_ms = run.duration_ms;
  error = run.error;
  started_at = run.started_at;
  finished_at = run.finished_at;
}

-- On a conflict the row keeps its id and the time at which it was claimed.
finish_row : ReviewRun → RunRow → RunRow
finish_row run r = record r {
  base_sha = run.base_sha;
  runner = run.runner;
  model = run.model;
  reasoning_effort = run.reasoning_effort;
  profile = run.profile;
  status = row_status run.status;
  comment_id = run.comment_id;
  tokens_in = run.tokens_in;
  tokens_out = run.tokens_out;
  usd = run.usd;
  duration_ms = run.duration_ms;
  error = run.error;
  finished_at = run.finished_at;
}

-- `recordRun`
unfoldable pub record_run : ReviewRun → Runs → Runs
unfolding finish_row
record_run run runs = elim (find (for_key run.key) runs) [
  | none ↦ runs ++ record_row run ∷ []
  | some _ ↦ update_where (for_key run.key) (finish_row run) runs
]

-- `COALESCE(finished_at, started_at)`
abbrev pub ended_at : RunRow → ℕ
ended_at r = get_or r.finished_at r.started_at

pub covers : String → ℕ → RunRow → Bool
covers repo pr r = str_eq r.repo repo && r.pr_number == pr && is_covered r.status

pub newer : RunRow → RunRow → Bool
newer a b = ltb (ended_at b) (ended_at a)

-- `lastReviewedSha`
unfoldable pub last_reviewed_sha : String → ℕ → Runs → Option String
unfolding covers newer
last_reviewed_sha repo pr runs = elim (select_first (covers repo pr) newer runs) [
  | none ↦ none
  | some r ↦ some r.head_sha
]

-- `isReviewed`
unfoldable pub is_reviewed : ReviewKey → Runs → Bool
is_reviewed key = any (λ r. for_key key r && is_covered r.status)

-- The answer of `isReviewedOrInFlight` for the row of the head, a comparison with `now - ms` again
-- written without the subtraction.
row_in_flight : ℕ → ℕ → ℕ → RunRow → Bool
row_in_flight now stale_ms cooldown_ms r = elim r.status [
  | RowStatus.ok ↦ true
  | RowStatus.skipped ↦ true
  | RowStatus.running ↦ leb now (r.started_at + stale_ms)
  | RowStatus.error ↦ is_limit_error r.error && leb now (ended_at r + cooldown_ms)
]

-- `isReviewedOrInFlight`
unfoldable pub is_reviewed_or_in_flight : ℕ → ReviewKey → ℕ → ℕ → Runs → Bool
unfolding row_in_flight
is_reviewed_or_in_flight now key stale_ms cooldown_ms runs = elim (find (for_key key) runs) [
  | none ↦ false
  | some r ↦ row_in_flight now stale_ms cooldown_ms r
]
