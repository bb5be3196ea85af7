-- ===== src/Dashboard/Queries.antt =====
-- src/apps/dashboard/queries.ts: the status that is read from the tables `jobs` and `review_runs`. A
-- failure of the database, which is only noted, is left out, and so are the constant notes.
use previewer.Prelude.{
  ℕ, ◌+◌, ◌-◌, ◌/◌, String, Bool, true, false, not, ◌&&◌, ◌||◌, Option, none, some, List, [], ◌∷◌,
  ◌++◌, map, keep, find, get_or, is_some, str_eq, ltb, ◌==◌, if◌then◌else◌, count_where,
  update_where, sort_by, take,
}
use previewer.Core.Text.{codes}
use previewer.Core.State.{JobSource, JobStatus}
use previewer.Core.Keys.{ReviewKey}
use previewer.Store.Queue.{JobRow, Jobs, has_key}
use previewer.Store.Reviews.{RunRow, Runs, RowStatus, is_running, is_error, default_stale_ms}
use previewer.Dashboard.ErrorKind.{ErrorKind, classify_error_kind}
use previewer.Dashboard.Order.{text_before}

pub record ReviewerNow : Type 0 where
  pub key : ReviewKey
  pub runner : Option String
  pub model : Option String
  pub reasoning_effort : Option String
  pub started_at : ℕ
  pub age_seconds : ℕ
  pub stale : Bool
  pub source : Option JobSource
  pub attempts : Option ℕ

abbrev source_of : Option JobRow → Option JobSource
source_of none = none
source_of (some j) = some j.source

abbrev attempts_of : Option JobRow → Option ℕ
attempts_of none = none
attempts_of (some j) = some j.attempts

-- `Math.max(0, Math.round(ageMs / 1000))`; a start in the future gives 0.
unfoldable pub reviewer_now : ℕ → Jobs → RunRow → ReviewerNow
reviewer_now at jobs r =
    let job = find (has_key r.key) jobs in
    record {
      key = r.key;
      runner = r.runner;
      model = r.model;
      reasoning_effort = r.reasoning_effort;
      started_at = r.started_at;
      age_seconds = (at - r.started_at + 500) / 1000;
      stale = ltb (r.started_at + default_stale_ms) at;
      source = source_of job;
      attempts = attempts_of job;
    }

abbrev started_later : RunRow → RunRow → Bool
started_later a b = ltb b.started_at a.started_at

unfoldable pub reviewers_now : ℕ → Jobs → Runs → List ReviewerNow
unfolding reviewer_now
reviewers_now at jobs runs =
    map (reviewer_now at jobs) (sort_by started_later (keep (λ r. is_running r.status) runs))

pub record PrRow : Type 0 where
  pub repo : String
  pub pr_number : ℕ
  pub head_sha : String
  pub rounds : ℕ
  pub posted : ℕ
  pub last_status : RowStatus
  pub last_runner : Option String
  pub last_model : Option String
  pub last_reasoning_effort : Option String
  pub last_comment_id : Option ℕ
  pub last_error : Option String
  pub last_at : ℕ

-- `COALESCE(finished_at, started_at)`
abbrev pub ended_at : RunRow → ℕ
ended_at r = get_or r.finished_at r.started_at

-- `status IN ('ok','skipped','error')`
abbrev pub is_final : RunRow → Bool
is_final r = not (is_running r.status)

-- `ORDER BY repo ASC, pr_number ASC, COALESCE(finished_at, started_at) DESC`
unfoldable pub comes_before : RunRow → RunRow → Bool
comes_before a b =
    text_before (codes a.repo) (codes b.repo)
    || (not (text_before (codes b.repo) (codes a.repo))
        && (ltb a.pr_number b.pr_number
            || (a.pr_number == b.pr_number && ltb (ended_at b) (ended_at a))))

-- The keys of the map: two runs are of one pull request.
abbrev pub of_pr : String → ℕ → RunRow → Bool
of_pr repo pr r = str_eq r.repo repo && r.pr_number == pr

abbrev pub is_pr : String → ℕ → PrRow → Bool
is_pr repo pr p = str_eq p.repo repo && p.pr_number == pr

abbrev pub is_posted : RunRow → Bool
is_posted r = is_some r.comment_id

unfoldable pub first_row : RunRow → PrRow
first_row r = record {
  repo = r.repo;
  pr_number = r.pr_number;
  head_sha = r.head_sha;
  rounds = 1;
  posted = if is_posted r then 1 else 0;
  last_status = r.status;
  last_runner = r.runner;
  last_model = r.model;
  last_reasoning_effort = r.reasoning_effort;
  last_comment_id = r.comment_id;
  last_error = r.error;
  last_at = ended_at r;
}

unfoldable pub count_run : RunRow → PrRow → PrRow
count_run r p = record p {
  rounds = p.rounds + 1;
  posted = p.posted + (if is_posted r then 1 else 0);
}

-- One round of the loop over the rows.
unfoldable pub add_run : List PrRow → RunRow → List PrRow
unfolding first_row count_run
add_run prs r = elim (find (is_pr r.repo r.pr_number) prs) [
  | none ↦ prs ++ first_row r ∷ []
  | some p ↦ update_where (is_pr r.repo r.pr_number) (count_run r) prs
]

unfoldable pub roll_up : List PrRow → List RunRow → List PrRow
unfolding add_run
roll_up prs [] = prs
roll_up prs (r ∷ rs) = roll_up (add_run prs r) rs

abbrev pub seen_later : PrRow → PrRow → Bool
seen_later a b = ltb b.last_at a.last_at

unfoldable pub tracked_prs : Runs → List PrRow
unfolding roll_up comes_before
tracked_prs runs = sort_by seen_later (roll_up [] (sort_by comes_before (keep is_final runs)))

pub record QueueCounts : Type 0 where
  pub enqueued : ℕ
  pub in_flight : ℕ
  pub done : ℕ
  pub skipped : ℕ
  pub error : ℕ
  pub dead_letter : ℕ

-- `COUNT(*) … GROUP BY status`, with 0 for a status that no row has
unfoldable pub queue_counts : Jobs → QueueCounts
queue_counts jobs = record {
  enqueued =
      count_where (λ (j : JobRow). elim j.status [ JobStatus.queued ↦ true | _ ↦ false ]) jobs;
  in_flight =
      count_where (λ (j : JobRow). elim j.status [ JobStatus.running ↦ true | _ ↦ false ]) jobs;
  done = count_where (λ (j : JobRow). elim j.status [ JobStatus.done ↦ true | _ ↦ false ]) jobs;
  skipped =
      count_where (λ (j : JobRow). elim j.status [ JobStatus.skipped ↦ true | _ ↦ false ]) jobs;
  error = count_where (λ (j : JobRow). elim j.status [ JobStatus.error ↦ true | _ ↦ false ]) jobs;
  dead_letter =
      count_where (λ (j : JobRow). elim j.status [ JobStatus.dead_letter ↦ true | _ ↦ false ]) jobs;
}

pub record RecentError : Type 0 where
  pub key : ReviewKey
  pub runner : Option String
  pub model : Option String
  pub error : String
  pub kind : ErrorKind
  pub at : ℕ

abbrev pub has_error : RunRow → Bool
has_error r = is_error r.status && is_some r.error

abbrev pub ended_later : RunRow → RunRow → Bool
ended_later a b = ltb (ended_at b) (ended_at a)

unfoldable pub recent_error : RunRow → RecentError
recent_error r =
    let message = get_or r.error "" in
    record {
      key = r.key;
      runner = r.runner;
      model = r.model;
      error = message;
      kind = classify_error_kind message;
      at = ended_at r;
    }

unfoldable pub recent_errors : Runs → List RecentError
unfolding recent_error
recent_errors runs = map recent_error (take 12 (sort_by ended_later (keep has_error runs)))

pub record DashboardStatus : Type 0 where
  pub reviewers : List ReviewerNow
  pub prs : List PrRow
  pub queue : QueueCounts
  pub recent_errors : List RecentError
  pub updated_at : ℕ

-- `buildStatus`, over tables that exist
unfoldable pub build_status : ℕ → Jobs → Runs → DashboardStatus
build_status at jobs runs = record {
  reviewers = reviewers_now at jobs runs;
  prs = tracked_prs runs;
  queue = queue_counts jobs;
  recent_errors = recent_errors runs;
  updated_at = at;
}
