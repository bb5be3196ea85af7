-- ===== src/Store/Queue/Release.antt =====
-- What settling gives up: the lease is gone, and no job comes to be ready before its delay.
use previewer.Prelude.{
  ℕ, suc, ◌+◌, ◌≤◌, ◌<◌, ◌≡◌, refl, inl, inr, Bool, true, false, Option, none, some, arith, ==_iff,
  find, All, get_or, leb, Option-cases, Bool-cases, update_where, count_where,
  count_where-update_where-le, count-zero_of_find, find_sound, All-tabulate, find-Has, same_row,
}
use previewer.Store.Queue.{
  JobRow, Jobs, QueueOptions, has_id, holds_lease, is_leasable, ack_row, ack, bury_row, retry_row,
  nack, back_off_row, nack_transient, transient_backoff_ms,
}
use previewer.Store.Queue.Calls.{acks, nacks, nacks_transient, step}
use previewer.Store.Queue.Valid.{IsValid}
use previewer.Prelude.{count_where-update_where-All}
use previewer.Store.Queue.Invariant.{step-IsValid}

-- The table after the lease `l` of the table `jobs` is settled, as the time `t` sees it.
pub record Releases (l t : ℕ) (jobs after : Jobs) : Type 0 where
  pub valid : IsValid after
  pub gone : count_where (holds_lease l) after ≡ 0
  pub others : (m : ℕ) → count_where (holds_lease m) after ≤ count_where (holds_lease m) jobs
  pub ready : count_where (is_leasable t) after ≤ count_where (is_leasable t) jobs

module _ (l t : ℕ) (jobs : Jobs) (v : IsValid jobs) where
  -- Settling by a lease that nobody holds.
  nothing-Releases : count_where (holds_lease l) jobs ≡ 0 → Releases l t jobs jobs
  nothing-Releases h = record {
    valid = v;
    gone = h;
    others = λ m. omega arith;
    ready = omega arith;
  }

  update-Releases :
      (q : JobRow → Bool) (g : JobRow → JobRow)
      → IsValid (update_where q g jobs)
      → ((x : JobRow) → (g x).lease_id ≡ none)
      → ((x : JobRow) → is_leasable t (g x) ≡ false)
      → All (λ x. holds_lease l x ≡ true → q x ≡ true) jobs
      → Releases l t jobs (update_where q g jobs)
  update-Releases q g valid frees waits hits = record {
    valid = valid;
    gone =
        count_where-update_where-All (holds_lease l) q g (λ x. ground (arith, frees x)) jobs hits;
    others = λ m.
        count_where-update_where-le (holds_lease m) q g (λ x h. absurd (ground (arith, frees x)))
          jobs;
    ready =
        count_where-update_where-le (is_leasable t) q g (λ x h. absurd (ground (arith, waits x)))
          jobs;
  }

  -- The rows that hold the lease of a row that is found have its id.
  holders :
      (r : JobRow)
      → find (holds_lease l) jobs ≡ some r
      → All (λ x. holds_lease l x ≡ true → has_id r.id x ≡ true) jobs
  holders r e = All-tabulate _ jobs (λ x i h.
      let same : x ≡ r =
        same_row (holds_lease l) jobs x r (v.leases l) i (find-Has (holds_lease l) jobs e) h
          (find_sound (holds_lease l) jobs r e) in
      rw same ((==_iff r.id r.id).1 refl))

  pub ack-Releases : Releases l t jobs (ack l jobs)
  unfolding ack ack_row step is_leasable
  ack-Releases =
      update-Releases (holds_lease l) ack_row
        (step-IsValid (record { max_attempts = 0; transient_base_ms = 0; transient_cap_ms = 0 })
          jobs (acks l) tt v)
        (λ x. refl) (λ x. refl) (All-tabulate _ jobs (λ x i h. h))

  pub nack-Releases :
      (opts : QueueOptions) (now : ℕ) (override : Option ℕ) (retry_in : ℕ)
      → t < now + retry_in
      → Releases l t jobs (nack opts now override l retry_in jobs)
  unfolding nack bury_row retry_row step is_leasable
  nack-Releases opts now override retry_in late =
      let valid = step-IsValid opts jobs (nacks now override l retry_in) tt v in
      elim (Option-cases (find (holds_lease l) jobs)) [
        | inl e ↦ rw (e, nack) (nothing-Releases (count-zero_of_find (holds_lease l) jobs e))
        | inr (r, e) ↦ elim (Bool-cases (leb (get_or override opts.max_attempts) r.attempts)) [
          | inl c ↦
              rw (e, nack, c)
                (update-Releases (has_id r.id) bury_row (rw (e, nack, c) at valid) (λ x. refl)
                  (λ x. refl) (holders r e))
          | inr c ↦
              rw (e, nack, c)
                (update-Releases (has_id r.id) (retry_row (now + retry_in))
                  (rw (e, nack, c) at valid) (λ x. refl) (λ x. ground arith) (holders r e))
        ]
      ]

  pub nack_transient-Releases :
      (opts : QueueOptions) (now : ℕ)
      → ((n : ℕ) → t < now + transient_backoff_ms opts (suc n))
      → Releases l t jobs (nack_transient opts now l jobs)
  unfolding nack_transient back_off_row step is_leasable
  nack_transient-Releases opts now late =
      let valid = step-IsValid opts jobs (nacks_transient now l) tt v in
      elim (Option-cases (find (holds_lease l) jobs)) [
        | inl e ↦
            rw (e, nack_transient) (nothing-Releases (count-zero_of_find (holds_lease l) jobs e))
        | inr (r, e) ↦
            let next : r.transient_attempts + 1 ≡ suc r.transient_attempts = omega arith in
            rw (e, nack_transient)
              (update-Releases (has_id r.id) (back_off_row _ _ _) (rw (e, nack_transient) at valid)
                (λ x. refl) (λ x. ground (arith, late r.transient_attempts, next)) (holders r e))
      ]
