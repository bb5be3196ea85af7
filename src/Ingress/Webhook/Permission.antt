-- ===== src/Ingress/Webhook/Permission.antt =====
-- Who can put a job into the queue.
use previewer.Prelude.{
  ℕ, ◌≡◌, refl, String, Bool, true, false, not, ◌&&◌, ◌||◌, ◌⊎◌, inl, inr, Option, none, some,
  find-Has, find_sound, Has, str_eq, Option-cases, Bool-cases, and-left, and-right, arith,
  if◌then◌else◌,
}
use previewer.Core.Failure.{Thrown}
use previewer.Config.Repo.{RepoConfig}
use previewer.Github.Commands.{PullRequestEvent, IssueCommentEvent, comment_author_can_command}
use previewer.Worker.Input.{PullRequestMeta}
use previewer.Ingress.Webhook.{
  Payload, IngressDeps, WebhookRequest, WebhookOutcome, Tables, Draws, mark, ignore, config_for,
  push_allowed, push_of, handle_pull_request, is_open_for, command_on, command_of, holds_command,
  handle_issue_comment, route, is_redelivery, handle_webhook,
}

-- A repository that is configured and enabled, and its configuration.
pub record Enabled (deps : IngressDeps) (repo : String) (cfg : RepoConfig) : Type 0 where
  pub configured : Has cfg deps.repo_configs
  pub names : str_eq cfg.id repo ≡ true
  pub on : cfg.enabled ≡ true

-- What allows a parsed body to change the queue.
pub data Allowed (deps : IngressDeps) (p : Payload) : Type 0 where
  pushed :
      (ev : PullRequestEvent) (cfg : RepoConfig)
      → p.pull_request ≡ some ev
      → Enabled deps ev.repo cfg
      → push_allowed cfg ev ≡ true
      → Allowed deps p
  commanded :
      (ev : IssueCommentEvent) (cfg : RepoConfig) (pr : PullRequestMeta)
      → p.issue_comment ≡ some ev
      → Enabled deps ev.repo cfg
      → holds_command ev ≡ true
      → comment_author_can_command ev.author_association ≡ true
      → deps.get_pull_request ev.repo ev.issue_number ≡ inr pr
      → is_open_for cfg pr ≡ true
      → Allowed deps p

config_for-Enabled :
    (deps : IngressDeps) (repo : String) (cfg : RepoConfig)
    → config_for repo deps.repo_configs ≡ some cfg
    → Enabled deps repo cfg
config_for-Enabled deps repo cfg e =
    let sound = find_sound (λ c. str_eq c.id repo && c.enabled) deps.repo_configs cfg e in
    record {
      configured = find-Has (λ c. str_eq c.id repo && c.enabled) deps.repo_configs e;
      names = and-left (str_eq cfg.id repo) cfg.enabled sound;
      on = and-right (str_eq cfg.id repo) cfg.enabled sound;
    }

mark-jobs : (now : ℕ) (req : WebhookRequest) (t : Tables) → (mark now req t).jobs ≡ t.jobs
unfolding mark
mark-jobs now req t = elim (Bool-cases (str_eq req.delivery_id "")) [
  | inl e ↦ rw e refl
  | inr e ↦ rw e refl
]

-- The queue is as it was, or `A` allows the change.
abbrev Guarded : Tables → Tables × WebhookOutcome → Type 0 → Type 0
Guarded t out A = (out.0.jobs ≡ t.jobs) ⊎ A

ignore-Guarded :
    (draws : Draws) (req : WebhookRequest) (t : Tables) (A : Type 0)
    → Guarded t (ignore draws req t) A
unfolding ignore
ignore-Guarded draws req t A = inl (mark-jobs draws.now req t)

-- A branch changes the queue only if it is taken.
if-Guarded :
    (b : Bool) (t : Tables) (x y : Tables × WebhookOutcome) (A : Type 0)
    → (b ≡ true → Guarded t x A)
    → (b ≡ false → Guarded t y A)
    → Guarded t (if b then x else y) A
if-Guarded true t x y A f g = f refl
if-Guarded false t x y A f g = g refl

module _ (deps : IngressDeps) (draws : Draws) (req : WebhookRequest) (t : Tables)
    (p : Payload) where
  push-Guarded :
      (e : Option PullRequestEvent)
      → p.pull_request ≡ e
      → Guarded t (handle_pull_request deps draws req t e) (Allowed deps p)
  unfolding handle_pull_request push_of
  push-Guarded none e = inl refl
  push-Guarded (some ev) e = elim (Option-cases (config_for ev.repo deps.repo_configs)) [
    | inl missing ↦ rw (missing, push_of) (ignore-Guarded draws req t (Allowed deps p))
    | inr (cfg, found) ↦
        rw (found, push_of)
          (if-Guarded (push_allowed cfg ev) t _ _ (Allowed deps p)
            (λ allowed. inr (pushed ev cfg e (config_for-Enabled deps ev.repo cfg found) allowed))
            (λ refused. ignore-Guarded draws req t (Allowed deps p)))
  ]

  answered-Guarded :
      (ev : IssueCommentEvent) (cfg : RepoConfig) (a : Thrown ⊎ PullRequestMeta)
      → ((pr : PullRequestMeta) → a ≡ inr pr → is_open_for cfg pr ≡ true → Allowed deps p)
      → Guarded t (command_on draws req ev cfg t a) (Allowed deps p)
  unfolding command_on
  answered-Guarded ev cfg (inl err) allow = inl refl
  answered-Guarded ev cfg (inr pr) allow =
      if-Guarded (is_open_for cfg pr) t _ _ (Allowed deps p)
        (λ open_pr. inr (allow pr refl open_pr))
        (λ closed. ignore-Guarded draws req t (Allowed deps p))

  comment-Guarded :
      (e : Option IssueCommentEvent)
      → p.issue_comment ≡ e
      → Guarded t (handle_issue_comment deps draws req t e) (Allowed deps p)
  unfolding handle_issue_comment command_of
  comment-Guarded none e = inl refl
  comment-Guarded (some ev) e =
      if-Guarded (holds_command ev) t _ _ (Allowed deps p)
        (λ command. elim (Option-cases (config_for ev.repo deps.repo_configs)) [
          | inl missing ↦ rw (missing, command_of) (ignore-Guarded draws req t (Allowed deps p))
          | inr (cfg, found) ↦
              rw (found, command_of)
                (if-Guarded (comment_author_can_command ev.author_association) t _ _
                  (Allowed deps p)
                  (λ author.
                    answered-Guarded ev cfg (deps.get_pull_request ev.repo ev.issue_number)
                      (λ pr asked open_pr.
                        commanded ev cfg pr e (config_for-Enabled deps ev.repo cfg found) command
                          author asked open_pr))
                  (λ stranger. ignore-Guarded draws req t (Allowed deps p)))
        ])
        (λ no_command. ignore-Guarded draws req t (Allowed deps p))

  route-Guarded : Guarded t (route deps draws req t (some p)) (Allowed deps p)
  unfolding route
  route-Guarded =
      if-Guarded (str_eq req.event "issue_comment") t _ _ (Allowed deps p)
        (λ comment. comment-Guarded p.issue_comment refl) (λ push. push-Guarded p.pull_request refl)

not-false : (b : Bool) → not b ≡ false → b ≡ true
not-false b h = ground (arith, h)

Allowed-by :
    (deps : IngressDeps) (draws : Draws) (req : WebhookRequest) (t : Tables)
    → deps.verify req.raw_body req.signature ≡ true
    → is_redelivery req t ≡ false
    → ((route deps draws req t (deps.parse req.raw_body)).0.jobs ≡ t.jobs)
      ⊎ ((p : Payload) × (deps.verify req.raw_body req.signature ≡ true)
          × (is_redelivery req t ≡ false)
          × (deps.parse req.raw_body ≡ some p)
          × Allowed deps p)
unfolding route
Allowed-by deps draws req t signed new = elim (Option-cases (deps.parse req.raw_body)) [
  | inl e ↦ inl (rw (e, route) refl)
  | inr (p, e) ↦ elim (route-Guarded deps draws req t p) [
    | inl kept ↦ inl (rw e kept)
    | inr allowed ↦ inr (p, signed, new, e, allowed)
  ]
]

-- A request changes the queue only if its signature is verified, its delivery was not processed
-- before, and its body is a push or a comment that is allowed: for a push, to a repository that is
-- configured and enabled, with one of its triggers and no draft that it ignores; for a comment, a
-- new one that holds a command on a pull request of such a repository, from an author with write
-- access, where GitHub answers that the pull request is open and no ignored draft.
pub handle_webhook-guarded :
    (deps : IngressDeps) (draws : Draws) (req : WebhookRequest) (t : Tables)
    → ((handle_webhook deps draws req t).0.jobs ≡ t.jobs)
      ⊎ ((p : Payload) × (deps.verify req.raw_body req.signature ≡ true)
          × (is_redelivery req t ≡ false)
          × (deps.parse req.raw_body ≡ some p)
          × Allowed deps p)
unfolding handle_webhook
handle_webhook-guarded deps draws req t =
    let verified = deps.verify req.raw_body req.signature in
    if-Guarded (not verified) t _ _ _ (λ unsigned. inl refl)
      (λ signed.
        if-Guarded (str_eq req.event "ping") t _ _ _ (λ pinged. inl refl)
          (λ no_ping.
            if-Guarded (not (str_eq req.event "pull_request" || str_eq req.event "issue_comment")) t
              _ _ _ (λ other. inl refl)
              (λ known.
                if-Guarded (is_redelivery req t) t _ _ _ (λ again. inl refl)
                  (λ new. Allowed-by deps draws req t (not-false verified signed) new))))
