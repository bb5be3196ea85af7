-- ===== src/Tests/Queue.antt =====
-- The queue at concrete inputs.
use previewer.Prelude.{
  ◌≤◌, ◌<◌, ◌≡◌, ◌≢◌, refl, false, true, inr, Has, some, [], ◌∷◌, find, arith, count_where,
  select_first, update_where,
}
use previewer.Core.Keys.{same_key}
use previewer.Store.Queue.{
  JobRow, default_options, has_id, is_leasable, older, enqueue, next_row, lease, nack_transient,
  transient_backoff_ms, next_visible_at,
}
use previewer.Store.Queue.Calls.{enqueues, leases, acks, nacks_transient, step, run}
use previewer.Store.Queue.Valid.{IsValid, IsValid-empty}
use previewer.Store.Queue.Invariant.{run-IsValid}
use previewer.Store.Queue.Lifecycle.{Moves, step-Moves}
use previewer.Store.Queue.Exclusion.{lease_exclusive}
use previewer.Store.Queue.Settling.{outlasted, outage_keeps_budget}
use previewer.Store.Queue.Wake.{next_visible_at_exact}
use previewer.Tests.Data.{
  a_head, a_job, b_job, a_lease, b_lease, queued_row, running_row, queued-IsValid, running-IsValid,
}

lease_exclusive_example : b_lease.id ≢ a_lease.id
unfolding lease run step enqueue select_first update_where is_leasable older same_key
lease_exclusive_example =
    lease_exclusive default_options 77 2_000 500 (queued_row ∷ []) a_lease
      (enqueues 1_100 true b_job ∷ []) queued-IsValid refl ((λ e. ground (arith, e), inr refl), tt)
      88 2_200 500 (omega arith) b_lease refl

run-IsValid_example :
    IsValid
      (run default_options [] (enqueues 1_000 false a_job ∷ leases 77 2_000 500 ∷ acks 77 ∷ []))
unfolding count_where run step enqueue
run-IsValid_example =
    run-IsValid default_options (enqueues 1_000 false a_job ∷ leases 77 2_000 500 ∷ acks 77 ∷ [])
      {jobs = []} (refl, (refl, (tt, tt))) IsValid-empty

step-Moves_example :
    Moves a_head running_row (step default_options (running_row ∷ []) (nacks_transient 2_100 77))
unfolding same_key
step-Moves_example =
    step-Moves default_options (running_row ∷ []) (nacks_transient 2_100 77) a_head running_row
      running-IsValid refl

outage_keeps_budget_example :
    find
      (has_id 11)
      (nack_transient default_options 2_100 77 (lease 77 2_000 500 (queued_row ∷ [])).0)
    ≡ some (outlasted default_options 2_100 queued_row)
unfolding next_row select_first is_leasable count_where
outage_keeps_budget_example =
    outage_keeps_budget default_options 77 2_000 500 2_100 (queued_row ∷ []) queued_row
      queued-IsValid refl refl

next_visible_at_exact_example :
    (2_000 < 2_500)
    × (count_where (is_leasable 2_400) (running_row ∷ [])
        ≤ count_where (is_leasable 2_000) (running_row ∷ []))
    × ((job : JobRow) × Has job (running_row ∷ [])
        × (is_leasable 2_500 job ≡ true)
        × (is_leasable 2_400 job ≡ false))
unfolding next_visible_at select_first
next_visible_at_exact_example =
    next_visible_at_exact 2_000 (running_row ∷ []) 2_500 2_400 refl (omega arith)

-- Three transient failures wait for one minute, two and four; the sixth reaches the cap.
backoff_test :
    (transient_backoff_ms default_options 1 ≡ 60_000)
    × (transient_backoff_ms default_options 3 ≡ 240_000)
    × (transient_backoff_ms default_options 6 ≡ 1_800_000)
unfolding transient_backoff_ms
backoff_test = (refl, refl, refl)
