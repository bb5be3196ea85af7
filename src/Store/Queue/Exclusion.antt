-- ===== src/Store/Queue/Exclusion.antt =====
-- A lease is exclusive until its window passes, and no longer.
use previewer.Prelude.{
  ℕ, ◌+◌, ◌≤◌, ◌<◌, ◌≡◌, ◌≢◌, inl, inr, true, none, some, List, arith, All, All-map, leb,
  Option-cases, and-right, select_first_sound, count-zero_of_select, select_first-Has, All-Has,
  count_where_mono-All,
}
use previewer.Store.Queue.{
  Jobs, QueueOptions, LeasedJob, has_id, is_open, is_leasable, older, leased_job, row_to_job,
  next_row, lease,
}
use previewer.Store.Queue.Valid.{IsValid}
use previewer.Store.Queue.Calls.{Call, run}
use previewer.Store.Queue.Holding.{SparesAll, IsHeld, run-IsHeld, lease_holds}

module _ (opts : QueueOptions) (uuid now timeout : ℕ) (jobs : Jobs) (out : LeasedJob)
    (cs : List Call) (valid : IsValid jobs) (leased : (lease uuid now timeout jobs).1 ≡ some out)
    (spared : SparesAll out.id out.key uuid (now + timeout) cs) (uuid' now' timeout' : ℕ) where
  abbrev later_jobs : Jobs
  later_jobs = run opts (lease uuid now timeout jobs).0 cs

  later-IsHeld : IsHeld out.id out.key uuid (now + timeout) later_jobs
  later-IsHeld =
      run-IsHeld out.id out.key uuid (now + timeout) opts _ cs spared
        (lease_holds uuid now timeout jobs out valid leased)

  -- A job that was handed out from a valid table is handed out to nobody else before its window has
  -- passed, through any calls, in any order, of these: enqueues of jobs with other ids, forced only
  -- if they are of other heads; leases within the window; and acks and nacks of other leases.
  pub lease_exclusive :
      now' < now + timeout
      → (other : LeasedJob) → (lease uuid' now' timeout' later_jobs).1 ≡ some other
      → other.id ≢ out.id
  unfolding lease leased_job row_to_job next_row is_leasable
  lease_exclusive early other h same = elim (Option-cases (next_row now' later_jobs)) [
    | inl e ↦ ground (arith, e)
    | inr (x, e) ↦
        let held =
          All-Has _ later_jobs later-IsHeld.held
            (select_first-Has (is_leasable now') older later_jobs x e) in
        let due =
          and-right (is_open x.status) (leb x.visible_at now')
            (select_first_sound (is_leasable now') older later_jobs x e) in
        let this : x.id ≡ other.id = ground (arith, e) in ground (arith, held, due)
  ]

  -- Once the window has passed the job counts as abandoned, and there is a job to hand out again.
  lease_expires : now + timeout ≤ now' → (lease uuid' now' timeout' later_jobs).1 ≢ none
  unfolding lease next_row is_leasable
  lease_expires late h = elim (Option-cases (next_row now' later_jobs)) [
    | inl e ↦
        let idle = count-zero_of_select (is_leasable now') older later_jobs e in
        let due : All (λ y. has_id out.id y ≡ true → is_leasable now' y ≡ true) later_jobs =
          All-map (λ y k i. ground (arith, k i)) later_jobs later-IsHeld.held in
        omega (
          arith,
          later-IsHeld.there,
          count_where_mono-All (has_id out.id) (is_leasable now') later_jobs due,
        )
    | inr (x, e) ↦ ground (arith, e)
  ]
