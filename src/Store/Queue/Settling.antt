-- ===== src/Store/Queue/Settling.antt =====
-- Settling a lease: `ack`, `nack` and `nackTransient`.
use previewer.Prelude.{
  ℕ, ◌+◌, ◌-◌, max, ◌≡◌, refl, ap, ◌∙◌, inl, inr, false, Option, none, some, arith, ◌==◌, ==_iff,
  if◌then◌else◌, find, get_or, leb, Option-cases, Bool-cases, update_where, count_where,
  find-none_of_count, find_sound, find-update_where, find-update_where_miss, update_where-none,
  find-update_where_key, select_first-Has, Has, find-Has, find_unique, same_row,
}
use previewer.Core.State.{JobStatus}
use previewer.Store.Queue.{
  JobRow, Jobs, QueueOptions, has_id, holds_lease, is_leasable, older, lease_row, next_row, lease,
  ack_row, ack, bury_row, retry_row, nack, back_off_row, nack_transient, transient_backoff_ms,
}
use previewer.Store.Queue.Valid.{IsValid}
use previewer.Store.Queue.Invariant.{lease-IsValid}

-- Settling by a lease that no row holds changes nothing: not a job that is done, nor one that was
-- handed to another worker in the meantime.
settle_stale :
    (opts : QueueOptions) (now : ℕ) (override : Option ℕ) (l retry_in : ℕ) (jobs : Jobs)
    → count_where (holds_lease l) jobs ≡ 0
    → (ack l jobs ≡ jobs)
      × (nack opts now override l retry_in jobs ≡ jobs)
      × (nack_transient opts now l jobs ≡ jobs)
unfolding ack nack nack_transient
settle_stale opts now override l retry_in jobs h =
    let miss = find-none_of_count (holds_lease l) jobs h in
    (update_where-none (holds_lease l) ack_row jobs h, rw (miss, nack), rw (miss, nack_transient))

-- A row is settled as `s`: in the table after, its id finds `s`, and another id finds what it did.
abbrev pub Settles : JobRow → JobRow → Jobs → Jobs → Type 0
Settles r s jobs after =
    (i : ℕ) → find (has_id i) after ≡ (if r.id == i then some s else find (has_id i) jobs)

-- In a valid table a row is found by its own id.
find_by_id :
    (r : JobRow) (jobs : Jobs) → IsValid jobs → Has r jobs → find (has_id r.id) jobs ≡ some r
find_by_id r jobs v i = find_unique (has_id r.id) jobs r (v.ids r.id) i ((==_iff r.id r.id).1 refl)

max_zero : (n : ℕ) → max 0 n ≡ n
max_zero n = omega arith

update-Settles :
    (g : JobRow → JobRow) (r : JobRow) (jobs : Jobs)
    → ((x : JobRow) → (g x).id ≡ x.id)
    → IsValid jobs
    → Has r jobs
    → Settles r (g r) jobs (update_where (has_id r.id) g jobs)
update-Settles g r jobs keeps v i j =
    find-update_where_key has_id ◌==◌ (λ k o e. (==_iff k o).0 e) (λ k o x e h. ground arith) r.id j
      g jobs r (λ k x. rw keeps refl) (find_by_id r jobs v i)

module _ (opts : QueueOptions) (now l : ℕ) (jobs : Jobs) (r : JobRow) (valid : IsValid jobs)
    (held : find (holds_lease l) jobs ≡ some r) where
  other_holds_not :
      (x : JobRow) (i : ℕ)
      → find (has_id i) jobs ≡ some x
      → (r.id == i) ≡ false
      → holds_lease l x ≡ false
  other_holds_not x i hit ne = elim (Bool-cases (holds_lease l x)) [
    | inr e ↦ e
    | inl e ↦
        let same : x ≡ r =
          same_row (holds_lease l) jobs x r (valid.leases l) (find-Has (has_id i) jobs hit)
            (find-Has (holds_lease l) jobs held) e (find_sound (holds_lease l) jobs r held) in
        let there = find_sound (has_id i) jobs x hit in absurd (ground arith)
  ]

  -- An ack finishes the job, and changes no other.
  pub ack_finishes :
      Settles r
        (record r { status = JobStatus.done; lease_id = none; locked_at = none })
        jobs
        (ack l jobs)
  unfolding ack ack_row
  ack_finishes i =
      let mine = find_sound (holds_lease l) jobs r held in
      let there = find-Has (holds_lease l) jobs held in
      elim (Bool-cases (r.id == i)) [
        | inl e ↦
            let here = find_by_id r jobs valid there in
            rw (e, ← (==_iff r.id i).0 e)
              (rw mine at
                (find-update_where (has_id r.id) (holds_lease l) ack_row (λ x. refl) jobs here))
        | inr e ↦ rw e (elim (Option-cases (find (has_id i) jobs)) [
          | inl miss ↦
              rw miss
                (find-update_where_miss (has_id i) (holds_lease l) ack_row (λ x. refl) jobs miss)
          | inr (x, hit) ↦
              let kept : holds_lease l x ≡ false = other_holds_not x i hit e in
              rw hit (
                rw kept at
                  (find-update_where (has_id i) (holds_lease l) ack_row (λ y. refl) jobs hit))
        ])
      ]

  -- A nack buries the job exactly when its deliveries have used up the budget (the queue's, or the
  -- caller's); otherwise the job waits for `retry_in`. Its count stays, and no other job changes.
  pub nack_budget :
      (override : Option ℕ) (retry_in : ℕ)
      → Settles r
          (if leb (get_or override opts.max_attempts) r.attempts
            then record r { status = JobStatus.dead_letter; lease_id = none; locked_at = none }
            else record r {
              status = JobStatus.queued;
              lease_id = none;
              locked_at = none;
              visible_at = now + retry_in;
            })
          jobs
          (nack opts now override l retry_in jobs)
  unfolding nack bury_row retry_row
  nack_budget override retry_in =
      let i = find-Has (holds_lease l) jobs held in
      elim (Bool-cases (leb (get_or override opts.max_attempts) r.attempts)) [
        | inl c ↦ rw (held, nack, c) (update-Settles bury_row r jobs (λ x. refl) valid i)
        | inr c ↦ rw (held, nack, c) (update-Settles (retry_row _) r jobs (λ x. refl) valid i)
      ]

  -- A transient nack never buries the job: it is queued again, after the back-off of its next
  -- transient failure, with one delivery taken off the count. No other job changes.
  pub nack_transient_requeues :
      Settles r
        (record r {
          status = JobStatus.queued;
          lease_id = none;
          locked_at = none;
          visible_at = now + transient_backoff_ms opts (r.transient_attempts + 1);
          attempts = r.attempts - 1;
          transient_attempts = r.transient_attempts + 1;
        })
        jobs
        (nack_transient opts now l jobs)
  unfolding nack_transient back_off_row
  nack_transient_requeues =
      let i = find-Has (holds_lease l) jobs held in
      rw (held, nack_transient, max_zero)
        (update-Settles (back_off_row _ _ _) r jobs (λ x. refl) valid i)

restored : (n : ℕ) → n + 1 - 1 ≡ n
restored n = omega arith

-- The row of a job after a delivery that ended in a transient failure at the time `failed`.
abbrev pub outlasted : QueueOptions → ℕ → JobRow → JobRow
outlasted opts failed r = record r {
  status = JobStatus.queued;
  lease_id = none;
  locked_at = none;
  visible_at = failed + transient_backoff_ms opts (r.transient_attempts + 1);
  transient_attempts = r.transient_attempts + 1;
}

-- A delivery that ends in a transient failure costs the job nothing of its budget: from a valid
-- table, leased under a fresh UUID and given back by that lease, the job waits with as many counted
-- deliveries as before, only the count of its transient failures and its back-off have grown.
pub outage_keeps_budget :
    (opts : QueueOptions) (uuid now timeout failed : ℕ) (jobs : Jobs) (r : JobRow)
    → IsValid jobs
    → count_where (holds_lease uuid) jobs ≡ 0
    → next_row now jobs ≡ some r
    → find (has_id r.id) (nack_transient opts failed uuid (lease uuid now timeout jobs).0)
      ≡ some (outlasted opts failed r)
unfolding lease lease_row next_row
outage_keeps_budget opts uuid now timeout failed jobs r v fresh e =
    let g = lease_row uuid now timeout in
    let after = update_where (has_id r.id) g jobs in
    let valid : IsValid after = rw (e, lease) at (lease-IsValid uuid now timeout jobs fresh v) in
    let mine = (==_iff r.id r.id).1 refl in
    let here : find (has_id r.id) after ≡ some (g r) = rw mine at (
      update-Settles g r jobs (λ x. refl) v (select_first-Has (is_leasable now) older jobs r e)
        r.id) in
    let held : find (holds_lease uuid) after ≡ some (g r) =
      find_unique (holds_lease uuid) after (g r) (valid.leases uuid) (find-Has _ after here)
        ((==_iff uuid uuid).1 refl) in
    rw (e, lease)
      ((rw mine at (nack_transient_requeues opts failed uuid after (g r) valid held r.id))
        ∙ ap some (λ i. record (outlasted opts failed r) { attempts = restored r.attempts i }))
