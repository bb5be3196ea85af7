-- ===== src/Store/Queue/Taking.antt =====
-- A lease takes one job away from those that are ready.
use previewer.Prelude.{
  ℕ, ◌+◌, ◌≤◌, ◌<◌, ◌≡◌, refl, sym, ◌≢◌, inl, inr, some, arith, ==_iff, Option-cases, count_where,
  count_where-update_where-le, select_first_sound, select_first-Has,
}
use previewer.Store.Queue.{
  Jobs, LeasedJob, has_id, holds_lease, is_leasable, older, lease_row, leased_job, row_to_job,
  next_row, lease,
}
use previewer.Prelude.{count_where-update_where-lt}

-- What `lease` does to the table, as a later time `t` within the window of the lease sees it.
pub record Leased (uuid t : ℕ) (jobs after : Jobs) (out : LeasedJob) : Type 0 where
  pub token : out.lease_id ≡ uuid
  pub fewer : count_where (is_leasable t) after < count_where (is_leasable t) jobs
  pub others :
      (l : ℕ) → l ≢ uuid → count_where (holds_lease l) after ≤ count_where (holds_lease l) jobs

pub lease-Leased :
    (uuid now timeout t : ℕ) (jobs : Jobs) (out : LeasedJob)
    → now ≤ t
    → t < now + timeout
    → (lease uuid now timeout jobs).1 ≡ some out
    → Leased uuid t jobs (lease uuid now timeout jobs).0 out
unfolding lease leased_job row_to_job lease_row next_row is_leasable
lease-Leased uuid now timeout t jobs out past window h = elim (Option-cases (next_row now jobs)) [
  | inl e ↦ absurd (ground (arith, e))
  | inr (x, e) ↦
      let g = lease_row uuid now timeout in
      let due = select_first_sound (is_leasable now) older jobs x e in
      let there = select_first-Has (is_leasable now) older jobs x e in
      rw (e, lease)
        (record {
          token = ground (arith, e);
          fewer =
              count_where-update_where-lt (is_leasable t) (has_id x.id) g (λ y. ground arith) jobs x
                there (ground (arith, due)) ((==_iff x.id x.id).1 refl);
          others = λ l ne.
              count_where-update_where-le (holds_lease l) (has_id x.id) g
                (λ y k. absurd (ne (sym ((==_iff uuid l).0 k)))) jobs;
        })
]
