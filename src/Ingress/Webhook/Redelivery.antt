-- ===== src/Ingress/Webhook/Redelivery.antt =====
-- A delivery is processed once.
use previewer.Prelude.{
  ℕ, ◌≡◌, refl, Bool, true, false, not, ◌||◌, ◌⊎◌, inl, inr, Option, none, some, str_eq, str_eq_iff,
  arith, if◌then◌else◌,
}
use previewer.Core.Failure.{Thrown}
use previewer.Config.Repo.{RepoConfig}
use previewer.Store.Deliveries.{mark_delivery-seen}
use previewer.Github.Commands.{PullRequestEvent, IssueCommentEvent, comment_author_can_command}
use previewer.Worker.Input.{PullRequestMeta}
use previewer.Ingress.Webhook.{
  Payload, IngressDeps, WebhookRequest, WebhookKind, WebhookOutcome, Tables, Draws, mark, ignore,
  config_for, queue_push, push_allowed, push_of, handle_pull_request, queue_command, is_open_for,
  command_on, command_of, holds_command, handle_issue_comment, route, is_redelivery, handle_webhook,
}

-- The outcomes after which the delivery is processed: a job was queued, or was already.
abbrev pub was_queued : WebhookKind → Bool
was_queued WebhookKind.enqueued = true
was_queued WebhookKind.queued_duplicate = true
was_queued _ = false

-- If the outcome queued something, the delivery is marked.
record Marks (req : WebhookRequest) (out : Tables × WebhookOutcome) : Type 0 where
  seen : was_queued out.1.kind ≡ true → is_redelivery req out.0 ≡ true

mark-seen :
    (now : ℕ) (req : WebhookRequest) (t : Tables)
    → str_eq req.delivery_id "" ≡ false
    → is_redelivery req (mark now req t) ≡ true
unfolding mark is_redelivery
mark-seen now req t named =
    let seen = (mark_delivery-seen now now req.delivery_id req.delivery_id t.deliveries).0 in
    rw (named, seen, (str_eq_iff req.delivery_id req.delivery_id).1 refl) refl

if-Marks :
    (req : WebhookRequest) (b : Bool) (x y : Tables × WebhookOutcome)
    → Marks req x
    → Marks req y
    → Marks req (if b then x else y)
if-Marks req true x y f g = f
if-Marks req false x y f g = g

never :
    (req : WebhookRequest) (out : Tables × WebhookOutcome)
    → was_queued out.1.kind ≡ false
    → Marks req out
never req out none_queued = record { seen = λ h. absurd (ground (arith, none_queued, h)) }

module _ (deps : IngressDeps) (draws : Draws) (req : WebhookRequest) (t : Tables)
    (named : str_eq req.delivery_id "" ≡ false) where
  config-Marks :
      (ev : PullRequestEvent) (c : Option RepoConfig) → Marks req (push_of deps draws req ev t c)
  unfolding push_of ignore queue_push
  config-Marks ev none = never req _ refl
  config-Marks ev (some cfg) =
      if-Marks req (push_allowed cfg ev) _ _
        (record { seen = λ h. mark-seen draws.now req _ named }) (never req _ refl)

  push-Marks : (e : Option PullRequestEvent) → Marks req (handle_pull_request deps draws req t e)
  unfolding handle_pull_request
  push-Marks none = never req _ refl
  push-Marks (some ev) = config-Marks ev (config_for ev.repo deps.repo_configs)

  asked-Marks :
      (ev : IssueCommentEvent) (cfg : RepoConfig) (a : Thrown ⊎ PullRequestMeta)
      → Marks req (command_on draws req ev cfg t a)
  unfolding command_on ignore queue_command
  asked-Marks ev cfg (inl err) = never req _ refl
  asked-Marks ev cfg (inr pr) =
      if-Marks req (is_open_for cfg pr) _ _ (record { seen = λ h. mark-seen draws.now req _ named })
        (never req _ refl)

  command-Marks :
      (ev : IssueCommentEvent) (c : Option RepoConfig)
      → Marks req (command_of deps draws req ev t c)
  unfolding command_of ignore
  command-Marks ev none = never req _ refl
  command-Marks ev (some cfg) =
      if-Marks req (comment_author_can_command ev.author_association) _ _
        (asked-Marks ev cfg (deps.get_pull_request ev.repo ev.issue_number)) (never req _ refl)

  comment-Marks :
      (e : Option IssueCommentEvent) → Marks req (handle_issue_comment deps draws req t e)
  unfolding handle_issue_comment ignore
  comment-Marks none = never req _ refl
  comment-Marks (some ev) =
      if-Marks req (holds_command ev) _ _ (command-Marks ev (config_for ev.repo deps.repo_configs))
        (never req _ refl)

  route-Marks : (p : Option Payload) → Marks req (route deps draws req t p)
  unfolding route
  route-Marks none = never req _ refl
  route-Marks (some p) =
      if-Marks req (str_eq req.event "issue_comment") _ _ (comment-Marks p.issue_comment)
        (push-Marks p.pull_request)

  webhook-Marks : Marks req (handle_webhook deps draws req t)
  unfolding handle_webhook
  webhook-Marks =
      if-Marks req (not (deps.verify req.raw_body req.signature)) _ _ (never req _ refl) (
        if-Marks req (str_eq req.event "ping") _ _ (never req _ refl) (
          if-Marks req (not (str_eq req.event "pull_request" || str_eq req.event "issue_comment")) _
            _ (never req _ refl)
            (if-Marks req (is_redelivery req t) _ _ (never req _ refl)
              (route-Marks (deps.parse req.raw_body)))))

if_keeps :
    (b : Bool) (x y : Tables × WebhookOutcome) (t : Tables)
    → x.0 ≡ t
    → y.0 ≡ t
    → (if b then x else y).0 ≡ t
if_keeps true x y t f g = f
if_keeps false x y t f g = g

if_taken :
    (b : Bool) (x y : Tables × WebhookOutcome) (t : Tables)
    → b ≡ true
    → x.0 ≡ t
    → (if b then x else y).0 ≡ t
if_taken true x y t e f = f
if_taken false x y t e f = absurd (ground (arith, e))

redelivered :
    (deps : IngressDeps) (draws : Draws) (req : WebhookRequest) (t : Tables)
    → is_redelivery req t ≡ true
    → (handle_webhook deps draws req t).0 ≡ t
unfolding handle_webhook
redelivered deps draws req t again =
    if_keeps (not (deps.verify req.raw_body req.signature)) _ _ t refl (
      if_keeps (str_eq req.event "ping") _ _ t refl (
        if_keeps (not (str_eq req.event "pull_request" || str_eq req.event "issue_comment")) _ _ t
          refl (if_taken (is_redelivery req t) _ _ t again refl)))

-- A request with a delivery id that has queued a job, or found it queued, is processed: the same
-- delivery again, at any later time, changes neither the queue nor the table of the deliveries.
pub redelivery_ignored :
    (deps : IngressDeps) (draws later : Draws) (req : WebhookRequest) (t : Tables)
    → str_eq req.delivery_id "" ≡ false
    → was_queued (handle_webhook deps draws req t).1.kind ≡ true
    → (handle_webhook deps later req (handle_webhook deps draws req t).0).0
      ≡ (handle_webhook deps draws req t).0
redelivery_ignored deps draws later req t named queued =
    redelivered deps later req _ ((webhook-Marks deps draws req t named).seen queued)
