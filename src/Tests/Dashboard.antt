-- ===== src/Tests/Dashboard.antt =====
-- The status page at concrete inputs.
use previewer.Prelude.{◌≡◌, refl, none, some, [], find}
use previewer.Core.State.{ReviewRun, RunStatus}
use previewer.Core.Regex.{test_i}
use previewer.Store.Reviews.{RunRow, Runs, placeholder, record_run}
use previewer.Dashboard.ErrorKind.{rate_limit, usage_limit, error, classify_error_kind}
use previewer.Dashboard.Queries.{is_pr, tracked_prs}
use previewer.Dashboard.Tracked.{Tracked, tracked_prs-Tracked}
use previewer.Tests.Data.{a_head}

abbrev posted_run : ReviewRun
posted_run = record {
  id = 41;
  key = a_head;
  base_sha = none;
  runner = some "claude-cli";
  model = none;
  reasoning_effort = none;
  profile = none;
  status = RunStatus.ok;
  comment_id = some 900;
  tokens_in = 10;
  tokens_out = 20;
  usd = 0;
  duration_ms = 5;
  error = none;
  started_at = 2_000;
  finished_at = some 3_000;
}

abbrev some_runs : Runs
unfolding record_run
some_runs = record_run posted_run []

abbrev a_claim : RunRow
a_claim = placeholder 1_000 a_head 21

tracked_prs-Tracked_example :
    Tracked "acme/api" 7 some_runs (find (is_pr "acme/api" 7) (tracked_prs some_runs))
tracked_prs-Tracked_example = tracked_prs-Tracked "acme/api" 7 some_runs

usage_limit_test : classify_error_kind "You've hit your usage limit" ≡ usage_limit
unfolding classify_error_kind test_i
usage_limit_test = refl

rate_limit_test : classify_error_kind "HTTP 429: slow down" ≡ rate_limit
unfolding classify_error_kind test_i
rate_limit_test = refl

other_error_test : classify_error_kind "exit code 4291" ≡ error
unfolding classify_error_kind test_i
other_error_test = refl
