-- ===== src/Reconciler/Sweep.antt =====
-- What the sweep finds and queues.
use previewer.Prelude.{
  ℕ, ◌≡◌, refl, String, Bool, true, false, not, ◌⊎◌, inl, inr, List, [], ◌∷◌, ◌++◌, if◌then◌else◌,
  find, is_some, All, Has, Option-cases, arith,
}
use previewer.Core.Keys.{ReviewKey, review_key}
use previewer.Core.Failure.{Thrown}
use previewer.Config.Repo.{RepoConfig}
use previewer.Store.Queue.{Jobs, has_key, make_job}
use previewer.Store.Queue.Enqueuing.{enqueue_known, enqueue-present, enqueue-stays}
use previewer.Store.Reviews.{
  Runs, default_stale_ms, is_reviewed_or_in_flight, claim_review, claimed,
}
use previewer.Store.Reviews.Coverage.{uncovered_claimable}
use previewer.Worker.Input.{PullRequestMeta}
use previewer.Reconciler.{
  UncoveredPr, ReconcileDeps, key_of, is_scanned, is_uncovered, uncovered_pr, scan_prs, scan_repo,
  scan_repos, job_of, queue_one, queue_uncovered,
}

-- A head that is found can be claimed, without force, at the time at which the sweep asked.
abbrev pub Claimable : ReconcileDeps → Runs → UncoveredPr → Type 0
Claimable deps runs u =
    (claim_id : ℕ)
    → (claim_review (deps.asked_at (key_of u)) (key_of u) false default_stale_ms claim_id runs).1
      ≡ claimed

All-append :
    (P : UncoveredPr → Type 0) (xs ys : List UncoveredPr) → All P xs → All P ys → All P (xs ++ ys)
All-append P [] ys h k = k
All-append P (x ∷ xs) ys h k = (h.0, All-append P xs ys h.1 k)

not-true : (b : Bool) → not b ≡ true → b ≡ false
not-true b h = ground (arith, h)

Has-if :
    (u : UncoveredPr) (b : Bool) (x y : ℕ × List UncoveredPr)
    → Has u x.1
    → Has u y.1
    → Has u (if b then x else y).1
Has-if u true x y i j = i
Has-if u false x y i j = j

Has-left : (xs ys : List UncoveredPr) (u : UncoveredPr) → Has u xs → Has u (xs ++ ys)
Has-left [] ys u i = elim i [ ]
Has-left (x ∷ xs) ys u (inl same) = inl same
Has-left (x ∷ xs) ys u (inr i) = inr (Has-left xs ys u i)

Has-right : (xs ys : List UncoveredPr) (u : UncoveredPr) → Has u ys → Has u (xs ++ ys)
Has-right [] ys u i = i
Has-right (x ∷ xs) ys u i = inr (Has-right xs ys u i)

All-if :
    (P : UncoveredPr → Type 0) (b : Bool) (x y : ℕ × List UncoveredPr)
    → (b ≡ true → All P x.1)
    → (b ≡ false → All P y.1)
    → All P (if b then x else y).1
All-if P true x y f g = f refl
All-if P false x y f g = g refl

module _ (deps : ReconcileDeps) (runs : Runs) where
  uncovered-Claimable :
      (repo : String) (pr : PullRequestMeta)
      → is_uncovered deps runs repo pr ≡ true
      → Claimable deps runs (uncovered_pr repo pr)
  unfolding is_uncovered
  uncovered-Claimable repo pr h claim_id =
      let key = review_key repo pr.number pr.head_sha in
      uncovered_claimable (deps.asked_at key) key default_stale_ms default_stale_ms claim_id runs (
        not-true
          (is_reviewed_or_in_flight (deps.asked_at key) key default_stale_ms default_stale_ms runs)
          h)

  scan_prs-Claimable :
      (cfg : RepoConfig) (prs : List PullRequestMeta)
      → All (Claimable deps runs) (scan_prs deps runs cfg prs).1
  unfolding scan_prs
  scan_prs-Claimable cfg [] = tt
  scan_prs-Claimable cfg (pr ∷ prs) =
      let rest = scan_prs-Claimable cfg prs in
      All-if (Claimable deps runs) (not (is_scanned cfg pr)) _ _ (λ e. rest)
        (λ e.
          All-if (Claimable deps runs) (is_uncovered deps runs cfg.id pr) _ _
            (λ h. (uncovered-Claimable cfg.id pr h, rest)) (λ h. rest))

  scan_repo-Claimable :
      (cfg : RepoConfig) (r : Thrown ⊎ List PullRequestMeta)
      → All (Claimable deps runs) (scan_repo deps runs cfg r).1
  unfolding scan_repo
  scan_repo-Claimable cfg (inl err) = tt
  scan_repo-Claimable cfg (inr prs) = scan_prs-Claimable cfg prs

  -- Every head that the sweep reports can be claimed, without force, at the time at which the sweep
  -- asked whether it is covered.
  pub scan_repos-Claimable :
      (cfgs : List RepoConfig) → All (Claimable deps runs) (scan_repos deps runs cfgs).1
  unfolding scan_repos
  scan_repos-Claimable [] = tt
  scan_repos-Claimable (cfg ∷ cfgs) =
      All-append (Claimable deps runs) _ _
        (scan_repo-Claimable cfg (deps.list_open_pull_requests cfg.id)) (scan_repos-Claimable cfgs)

  scan_prs-Has :
      (cfg : RepoConfig) (prs : List PullRequestMeta) (pr : PullRequestMeta)
      → Has pr prs
      → is_scanned cfg pr ≡ true
      → is_uncovered deps runs cfg.id pr ≡ true
      → Has (uncovered_pr cfg.id pr) (scan_prs deps runs cfg prs).1
  unfolding scan_prs
  scan_prs-Has cfg [] pr i open_pr new = elim i [ ]
  scan_prs-Has cfg (x ∷ prs) pr (inl same) open_pr new = rw (same, open_pr, new) (inl refl)
  scan_prs-Has cfg (x ∷ prs) pr (inr i) open_pr new =
      let found = scan_prs-Has cfg prs pr i open_pr new in
      Has-if (uncovered_pr cfg.id pr) (not (is_scanned cfg x)) _ _ found
        (Has-if (uncovered_pr cfg.id pr) (is_uncovered deps runs cfg.id x) _ _ (inr found) found)

  -- The sweep is complete: of every configured repository whose list GitHub answers, each pull
  -- request that is open and no ignored draft is reported if its head is not covered.
  pub scan_repos-Has :
      (cfgs : List RepoConfig) (cfg : RepoConfig) (prs : List PullRequestMeta)
      (pr : PullRequestMeta)
      → Has cfg cfgs
      → deps.list_open_pull_requests cfg.id ≡ inr prs
      → Has pr prs
      → is_scanned cfg pr ≡ true
      → is_uncovered deps runs cfg.id pr ≡ true
      → Has (uncovered_pr cfg.id pr) (scan_repos deps runs cfgs).1
  unfolding scan_repos scan_repo
  scan_repos-Has [] cfg prs pr i listed j open_pr new = elim i [ ]
  scan_repos-Has (c ∷ cfgs) cfg prs pr (inl same) listed j open_pr new =
      rw (same, scan_repos, listed) (Has-left _ _ _ (scan_prs-Has cfg prs pr j open_pr new))
  scan_repos-Has (c ∷ cfgs) cfg prs pr (inr i) listed j open_pr new =
      Has-right (scan_repo deps runs c (deps.list_open_pull_requests c.id)).1 _ _
        (scan_repos-Has cfgs cfg prs pr i listed j open_pr new)

module _ (deps : ReconcileDeps) where
  queue_uncovered-stays :
      (us : List UncoveredPr) (jobs : Jobs) (k : ReviewKey)
      → is_some (find (has_key k) jobs) ≡ true
      → is_some (find (has_key k) (queue_uncovered deps us jobs).0) ≡ true
  unfolding queue_uncovered queue_one
  queue_uncovered-stays [] jobs k h = h
  queue_uncovered-stays (u ∷ us) jobs k h =
      queue_uncovered-stays us _ k
        (enqueue-stays (deps.queued_at (key_of u)) (job_of deps u) jobs k h)

  -- After the sweep has queued what it found, each head that it found has a row in the queue.
  queue_uncovered-present :
      (us : List UncoveredPr) (jobs : Jobs)
      → All (λ u. is_some (find (has_key (key_of u)) (queue_uncovered deps us jobs).0) ≡ true) us
  unfolding queue_uncovered queue_one job_of make_job
  queue_uncovered-present [] jobs = tt
  queue_uncovered-present (u ∷ us) jobs = (
    queue_uncovered-stays us (queue_one deps u jobs).0 (key_of u)
        (enqueue-present (deps.queued_at (key_of u)) (job_of deps u) jobs),
    queue_uncovered-present us (queue_one deps u jobs).0,
  )

  -- A head that has a row in the queue, also one whose job is done or was buried, is not queued
  -- again: if each head that the sweep found has one, the queue stays as it is and none is counted.
  queue_uncovered-known :
      (us : List UncoveredPr) (jobs : Jobs)
      → All (λ u. is_some (find (has_key (key_of u)) jobs) ≡ true) us
      → queue_uncovered deps us jobs ≡ (jobs, 0)
  unfolding queue_uncovered queue_one job_of make_job
  queue_uncovered-known [] jobs known = refl
  queue_uncovered-known (u ∷ us) jobs (known, others) =
      elim (Option-cases (find (has_key (key_of u)) jobs)) [
        | inl missing ↦ absurd (ground (arith, missing, known))
        | inr (r, e) ↦
            rw
              (
                enqueue_known (deps.queued_at (key_of u)) (job_of deps u) jobs r e,
                queue_uncovered-known us jobs others,
              )
              refl
      ]
