-- ===== src/Tests/Requests.antt =====
-- The webhook, the sweep and the published comment at concrete inputs.
use previewer.Prelude.{
  ℕ, All, ◌≡◌, refl, ◌⊎◌, inl, inr, true, false, none, some, List, [], ◌∷◌, ◌++◌, length, Has,
  str_eq, update_where,
}
use previewer.Core.Text.{codes}
use previewer.Core.Failure.{thrown_text}
use previewer.Github.Commands.{PullRequestEvent}
use previewer.Github.Publish.{Comment, has_id, IssueCommentsApi, upsert_review_comment}
use previewer.Ingress.Webhook.{
  Payload, IngressDeps, WebhookRequest, Tables, Draws, is_redelivery, handle_webhook,
}
use previewer.Ingress.Webhook.Permission.{Allowed, handle_webhook-guarded}
use previewer.Ingress.Webhook.Redelivery.{redelivery_ignored}
use previewer.Reconciler.{UncoveredPr, ReconcileDeps, uncovered_pr, is_uncovered, scan_repos}
use previewer.Reconciler.Sweep.{Claimable, scan_repos-Claimable, scan_repos-Has}
use previewer.Tests.Data.{a_config, a_pull_request}

abbrev a_push : PullRequestEvent
a_push = record {
  action = "opened";
  repo = "acme/api";
  pr_number = 7;
  head_sha = "abc1234";
  base_sha = "000aaaa";
  is_draft = false;
}

abbrev ingress : IngressDeps
ingress = record {
  verify = λ body signature. str_eq signature "good";
  parse = λ body. some (record { pull_request = some a_push; issue_comment = none });
  get_pull_request = λ repo pr. inl (thrown_text "no answer");
  repo_configs = a_config ∷ [];
}

abbrev a_request : WebhookRequest
a_request = record {
  event = "pull_request";
  delivery_id = "d-1";
  signature = "good";
  raw_body = "{}";
}

abbrev empty_tables : Tables
empty_tables = record { deliveries = []; jobs = [] }

abbrev a_draw : Draws
a_draw = record { now = 1_000; uuid = 11 }

abbrev later_draw : Draws
later_draw = record { now = 9_000; uuid = 12 }

handle_webhook-guarded_example :
    ((handle_webhook ingress a_draw a_request empty_tables).0.jobs ≡ [])
    ⊎ ((p : Payload) × (ingress.verify "{}" "good" ≡ true)
        × (is_redelivery a_request empty_tables ≡ false)
        × (ingress.parse "{}" ≡ some p)
        × Allowed ingress p)
handle_webhook-guarded_example = handle_webhook-guarded ingress a_draw a_request empty_tables

redelivery_ignored_example :
    (handle_webhook ingress later_draw a_request
      (handle_webhook ingress a_draw a_request empty_tables).0).0
    ≡ (handle_webhook ingress a_draw a_request empty_tables).0
unfolding handle_webhook
redelivery_ignored_example =
    redelivery_ignored ingress a_draw later_draw a_request empty_tables refl refl

abbrev sweep : ReconcileDeps
sweep = record {
  repo_configs = a_config ∷ [];
  list_open_pull_requests = λ repo. inr (a_pull_request ∷ []);
  asked_at = λ key. 5_000;
  queued_at = λ key. 5_001;
  uuid = λ key. 41;
}

scan_repos-Has_example :
    Has (uncovered_pr "acme/api" a_pull_request) (scan_repos sweep [] (a_config ∷ [])).1
unfolding is_uncovered
scan_repos-Has_example =
    scan_repos-Has sweep [] (a_config ∷ []) a_config (a_pull_request ∷ []) a_pull_request (inl refl)
      refl (inl refl) refl refl

scan_repos-Claimable_example : All (Claimable sweep []) (scan_repos sweep [] (a_config ∷ [])).1
scan_repos-Claimable_example = scan_repos-Claimable sweep [] (a_config ∷ [])

abbrev a_find : UncoveredPr
a_find = uncovered_pr "acme/api" a_pull_request

-- GitHub's comments as a list: a new comment has the number of the comments as its id.
abbrev comments : IssueCommentsApi (List Comment)
comments = record {
  list = λ s. s;
  update = λ s i body. update_where (has_id i) (λ c. record c { body = body }) s;
  create = λ s body. (s ++ record { id = length s; body = body } ∷ [], length s);
  list-update = λ s i body. refl;
  list-create = λ s body. refl;
}

abbrev once : List Comment × ℕ
once = upsert_review_comment comments (codes "<!-- m -->") (codes "ok") []

abbrev twice : List Comment × ℕ
twice = upsert_review_comment comments (codes "<!-- m -->") (codes "no") once.0
