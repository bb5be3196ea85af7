-- ===== src/Ingress/Webhook.antt =====
-- src/apps/ingress/server.ts: a webhook request, from its signature to the queue. The verifier, the
-- parser of JSON with the extraction of the events, and GitHub are fields of `IngressDeps`; the texts
-- of the messages and the journal are left out.
pub mod Permission
pub mod Redelivery
use previewer.Prelude.{
  ℕ, String, Bool, true, false, not, ◌&&◌, ◌||◌, ◌⊎◌, inl, inr, Option, none, some, List, [], ◌∷◌,
  any, find, str_eq, if◌then◌else◌,
}
use previewer.Core.Keys.{ReviewKey}
use previewer.Core.State.{JobSource}
use previewer.Core.Failure.{Thrown}
use previewer.Config.Repo.{RepoConfig}
use previewer.Store.Deliveries.{Delivery, seen_delivery, mark_delivery}
use previewer.Store.Queue.{Jobs, Enqueued, enqueue, make_job}
use previewer.Github.Commands.{
  PullRequestEvent, IssueCommentEvent, matches_review_command, comment_author_can_command,
}
use previewer.Worker.Input.{PullRequestMeta}

-- What is read from a body: the events that `extractPullRequestEvent` and
-- `extractIssueCommentEvent` find in it.
pub record Payload : Type 0 where
  pub pull_request : Option PullRequestEvent
  pub issue_comment : Option IssueCommentEvent

pub record IngressDeps : Type 0 where
  pub verify : String → String → Bool
  pub parse : String → Option Payload
  pub get_pull_request : String → ℕ → Thrown ⊎ PullRequestMeta
  pub repo_configs : List RepoConfig

pub record WebhookRequest : Type 0 where
  pub event : String
  pub delivery_id : String
  pub signature : String
  pub raw_body : String

pub data WebhookKind : Type 0 where
  enqueued queued_duplicate ignored duplicate_delivery bad_signature ping error : WebhookKind

pub record WebhookOutcome : Type 0 where
  pub status : ℕ
  pub kind : WebhookKind
  pub enqueued : Option ReviewKey

-- The tables that a request changes, and what the request draws.
pub record Tables : Type 0 where
  pub deliveries : List Delivery
  pub jobs : Jobs

pub record Draws : Type 0 where
  pub now : ℕ
  pub uuid : ℕ

abbrev pub answer : ℕ → WebhookKind → WebhookOutcome
answer status kind = record { status = status; kind = kind; enqueued = none }

-- `if (req.deliveryId) await store.markDelivery(req.deliveryId)`
unfoldable pub mark : ℕ → WebhookRequest → Tables → Tables
unfolding mark_delivery
mark now req t =
    if str_eq req.delivery_id ""
    then t
    else record t { deliveries = mark_delivery now req.delivery_id t.deliveries }

-- `ignore`
unfoldable pub ignore : Draws → WebhookRequest → Tables → Tables × WebhookOutcome
unfolding mark
ignore draws req t = (mark draws.now req t, answer 202 WebhookKind.ignored)

-- `repoConfigs.find((c) => c.repo.id === repo && c.repo.enabled)`
abbrev pub config_for : String → List RepoConfig → Option RepoConfig
config_for repo = find (λ c. str_eq c.id repo && c.enabled)

pub kind_of_push : Enqueued → WebhookKind
kind_of_push Enqueued.enqueued = WebhookKind.enqueued
kind_of_push _ = WebhookKind.queued_duplicate

-- The push is queued, and its delivery marked.
unfoldable pub queue_push :
    Draws → WebhookRequest → PullRequestEvent → Tables → Tables × WebhookOutcome
unfolding enqueue make_job mark kind_of_push
queue_push draws req ev t =
    let (jobs, r) =
      enqueue draws.now false
        (make_job draws.uuid draws.now (record {
          repo = ev.repo;
          pr_number = ev.pr_number;
          head_sha = ev.head_sha;
          source = JobSource.webhook;
          base_sha = some ev.base_sha;
          full = none;
        }))
        t.jobs in
    (
      mark draws.now req (record t { jobs = jobs }),
      record {
        status = 202;
        kind = kind_of_push r;
        enqueued =
            some (record { repo = ev.repo; pr_number = ev.pr_number; head_sha = ev.head_sha });
      },
    )

-- The triggers and the draft rule of a repository
abbrev pub push_allowed : RepoConfig → PullRequestEvent → Bool
push_allowed cfg ev =
    any (λ a. str_eq a ev.action) cfg.events.triggers
    && not (ev.is_draft && cfg.events.ignore_draft)

unfoldable pub push_of :
    IngressDeps
    → Draws
    → WebhookRequest
    → PullRequestEvent
    → Tables
    → Option RepoConfig
    → Tables × WebhookOutcome
unfolding ignore queue_push
push_of deps draws req ev t none = ignore draws req t
push_of deps draws req ev t (some cfg) =
    if push_allowed cfg ev then queue_push draws req ev t else ignore draws req t

-- `handlePullRequest`
unfoldable pub handle_pull_request :
    IngressDeps
    → Draws
    → WebhookRequest
    → Tables
    → Option PullRequestEvent
    → Tables × WebhookOutcome
unfolding push_of
handle_pull_request deps draws req t none = (t, answer 202 WebhookKind.ignored)
handle_pull_request deps draws req t (some ev) =
    push_of deps draws req ev t (config_for ev.repo deps.repo_configs)

-- The forced full review is queued, and the delivery marked.
unfoldable pub queue_command :
    Draws → WebhookRequest → IssueCommentEvent → PullRequestMeta → Tables → Tables × WebhookOutcome
unfolding enqueue make_job mark
queue_command draws req ev pr t =
    let (jobs, r) =
      enqueue draws.now true
        (make_job draws.uuid draws.now (record {
          repo = ev.repo;
          pr_number = ev.issue_number;
          head_sha = pr.head_sha;
          source = JobSource.manual;
          base_sha = some pr.base_sha;
          full = some true;
        }))
        t.jobs in
    (
      mark draws.now req (record t { jobs = jobs }),
      record {
        status = 202;
        kind = WebhookKind.enqueued;
        enqueued =
            some (record { repo = ev.repo; pr_number = ev.issue_number; head_sha = pr.head_sha });
      },
    )

-- May the pull request be reviewed?
abbrev pub is_open_for : RepoConfig → PullRequestMeta → Bool
is_open_for cfg pr = not pr.is_closed && not (pr.is_draft && cfg.events.ignore_draft)

-- What GitHub answers about the pull request of a command: a failure leaves the delivery unmarked.
unfoldable pub command_on :
    Draws
    → WebhookRequest
    → IssueCommentEvent
    → RepoConfig
    → Tables
    → Thrown ⊎ PullRequestMeta
    → Tables × WebhookOutcome
unfolding ignore queue_command
command_on draws req ev cfg t (inl err) = (t, answer 500 WebhookKind.error)
command_on draws req ev cfg t (inr pr) =
    if is_open_for cfg pr then queue_command draws req ev pr t else ignore draws req t

unfoldable pub command_of :
    IngressDeps
    → Draws
    → WebhookRequest
    → IssueCommentEvent
    → Tables
    → Option RepoConfig
    → Tables × WebhookOutcome
unfolding ignore command_on comment_author_can_command
command_of deps draws req ev t none = ignore draws req t
command_of deps draws req ev t (some cfg) =
    if comment_author_can_command ev.author_association
    then command_on draws req ev cfg t (deps.get_pull_request ev.repo ev.issue_number)
    else ignore draws req t

-- Does the comment hold a command on a pull request? An edit may not bring one in later.
unfoldable pub holds_command : IssueCommentEvent → Bool
unfolding matches_review_command
holds_command ev =
    str_eq ev.action "created" && ev.is_pull_request && matches_review_command ev.comment_body

-- `handleIssueComment`
unfoldable pub handle_issue_comment :
    IngressDeps
    → Draws
    → WebhookRequest
    → Tables
    → Option IssueCommentEvent
    → Tables × WebhookOutcome
unfolding command_of holds_command ignore
handle_issue_comment deps draws req t none = (t, answer 202 WebhookKind.ignored)
handle_issue_comment deps draws req t (some ev) =
    if holds_command ev
    then command_of deps draws req ev t (config_for ev.repo deps.repo_configs)
    else ignore draws req t

-- The route of a parsed body
unfoldable pub route :
    IngressDeps → Draws → WebhookRequest → Tables → Option Payload → Tables × WebhookOutcome
unfolding handle_pull_request handle_issue_comment
route deps draws req t none = (t, answer 400 WebhookKind.error)
route deps draws req t (some p) =
    if str_eq req.event "issue_comment"
    then handle_issue_comment deps draws req t p.issue_comment
    else handle_pull_request deps draws req t p.pull_request

-- `req.deliveryId && await store.seenDelivery(req.deliveryId)`
unfoldable pub is_redelivery : WebhookRequest → Tables → Bool
unfolding seen_delivery
is_redelivery req t = not (str_eq req.delivery_id "") && seen_delivery req.delivery_id t.deliveries

-- `handleWebhook`
unfoldable pub handle_webhook :
    IngressDeps → Draws → WebhookRequest → Tables → Tables × WebhookOutcome
unfolding route is_redelivery
handle_webhook deps draws req t =
    if not (deps.verify req.raw_body req.signature)
    then (t, answer 401 WebhookKind.bad_signature)
    else if str_eq req.event "ping"
    then (t, answer 200 WebhookKind.ping)
    else if not (str_eq req.event "pull_request" || str_eq req.event "issue_comment")
    then (t, answer 202 WebhookKind.ignored)
    else if is_redelivery req t
    then (t, answer 200 WebhookKind.duplicate_delivery)
    else route deps draws req t (deps.parse req.raw_body)
