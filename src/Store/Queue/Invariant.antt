-- ===== src/Store/Queue/Invariant.antt =====
-- The invariant of the table `jobs`, kept by every call.
use previewer.Prelude.{
  ℕ, ◌≤◌, ◌≡◌, refl, inl, inr, Bool, true, false, Option, none, List, [], ◌∷◌, ◌++◌, arith, ◌==◌,
  ==_iff, if◌then◌else◌, find, Option-cases, update_where, count_where, count_where-update_where,
  count_where-update_where-le, count_where-update_where_fresh, count_where-append,
  count-zero_of_find,
}
use native.Mathlib.Decide.{ℕ_discrete}
use previewer.Core.Keys.{ReviewKey, same_key, same_key_iff}
use previewer.Core.State.{Job}
use previewer.Store.Queue.{
  JobRow, Jobs, QueueOptions, has_key, has_id, holds_lease, new_row, requeue_row, enqueue,
  lease_row, next_row, lease, ack_row, ack, bury_row, retry_row, nack, back_off_row, nack_transient,
}
use previewer.Store.Queue.Calls.{
  Call, enqueues, leases, acks, nacks, nacks_transient, step, run, Fresh, AllFresh,
}
use previewer.Store.Queue.Valid.{IsValid, is_torn, Frees, free-IsValid}

ack_row-Frees : Frees ack_row
unfolding ack_row is_torn
ack_row-Frees = record { key = λ r. refl; id = λ r. refl; lease = λ r. refl; whole = λ r. refl }

bury_row-Frees : Frees bury_row
unfolding bury_row is_torn
bury_row-Frees = record { key = λ r. refl; id = λ r. refl; lease = λ r. refl; whole = λ r. refl }

retry_row-Frees : (at : ℕ) → Frees (retry_row at)
unfolding retry_row is_torn
retry_row-Frees at = record {
  key = λ r. refl;
  id = λ r. refl;
  lease = λ r. refl;
  whole = λ r. refl;
}

back_off_row-Frees : (at a n : ℕ) → Frees (back_off_row at a n)
unfolding back_off_row is_torn
back_off_row-Frees at a n = record {
  key = λ r. refl;
  id = λ r. refl;
  lease = λ r. refl;
  whole = λ r. refl;
}

requeue_row-Frees : (now : ℕ) (job : Job) → Frees (requeue_row now job)
unfolding requeue_row is_torn
requeue_row-Frees now job = record {
  key = λ r. refl;
  id = λ r. refl;
  lease = λ r. refl;
  whole = λ r. refl;
}

-- The key of a fresh row is in no other row.
only_key :
    (k : ReviewKey) (job : Job) (jobs : Jobs)
    → find (has_key job.key) jobs ≡ none
    → same_key job.key k ≡ true
    → count_where (has_key k) jobs ≡ 0
only_key k job jobs miss same =
    rw (← (same_key_iff job.key k).0 same) (count-zero_of_find (has_key job.key) jobs miss)

only_id :
    (i j : ℕ) (jobs : Jobs)
    → count_where (has_id j) jobs ≡ 0
    → (j == i) ≡ true
    → count_where (has_id i) jobs ≡ 0
only_id i j jobs fresh same = rw (← (==_iff j i).0 same) fresh

if_IsValid_jobs : (b : Bool) (s t : Jobs) → IsValid s → IsValid t → IsValid (if b then s else t)
if_IsValid_jobs true s t vs vt = vs
if_IsValid_jobs false s t vs vt = vt

if_IsValid :
    {A : Type 0} (b : Bool) (s t : Jobs × A)
    → IsValid s.0
    → IsValid t.0
    → IsValid (if b then s else t).0
if_IsValid true s t vs vt = vs
if_IsValid false s t vs vt = vt

insert-IsValid :
    (now : ℕ) (job : Job) (jobs : Jobs)
    → find (has_key job.key) jobs ≡ none
    → count_where (has_id job.id) jobs ≡ 0
    → IsValid jobs
    → IsValid (jobs ++ new_row now job ∷ [])
unfolding new_row count_where is_torn
insert-IsValid now job jobs miss fresh v =
    let row = new_row now job ∷ [] in
    record {
      keys = λ k.
          ground
            (arith, v.keys k, only_key k job jobs miss, count_where-append (has_key k) jobs row);
      ids = λ i.
          ground
            (arith, v.ids i, only_id i job.id jobs fresh, count_where-append (has_id i) jobs row);
      leases = λ l. ground (arith, v.leases l, count_where-append (holds_lease l) jobs row);
      whole = ground (arith, v.whole, count_where-append is_torn jobs row);
    }

lease_row-whole :
    (uuid now timeout : ℕ) (r : JobRow) → is_torn (lease_row uuid now timeout r) ≡ false
unfolding lease_row is_torn
lease_row-whole uuid now timeout r = ground arith

-- A lease stands in the leased row only, if its UUID was in no row before.
lease_row-leases :
    (uuid now timeout i l : ℕ) (jobs : Jobs)
    → count_where (holds_lease uuid) jobs ≡ 0
    → IsValid jobs
    → count_where (holds_lease l) (update_where (has_id i) (lease_row uuid now timeout) jobs) ≤ 1
unfolding lease_row
lease_row-leases uuid now timeout i l jobs fresh v =
    let g = lease_row uuid now timeout in
    elim (ℕ_discrete uuid l) [
      | yes e ↦ rw (← e) (
          omega (
            arith,
            v.ids i,
            count_where-update_where_fresh (holds_lease uuid) (has_id i) g jobs fresh,
          ))
      | no ne ↦ omega (
        arith,
        v.leases l,
        count_where-update_where-le (holds_lease l) (has_id i) g
            (λ r h. absurd (ne ((==_iff uuid l).0 h))) jobs,
      )
    ]

lease_row-IsValid :
    (uuid now timeout i : ℕ) (jobs : Jobs)
    → count_where (holds_lease uuid) jobs ≡ 0
    → IsValid jobs
    → IsValid (update_where (has_id i) (lease_row uuid now timeout) jobs)
unfolding lease_row
lease_row-IsValid uuid now timeout i jobs fresh v =
    let g = lease_row uuid now timeout in
    record {
      keys = λ k. rw (count_where-update_where (has_key k) (has_id i) g (λ r. refl)) (v.keys k);
      ids = λ j. rw (count_where-update_where (has_id j) (has_id i) g (λ r. refl)) (v.ids j);
      leases = λ l. lease_row-leases uuid now timeout i l jobs fresh v;
      whole = omega (
        arith,
        v.whole,
        count_where-update_where-le is_torn (has_id i) g
            (λ r h. ground (arith, lease_row-whole uuid now timeout r)) jobs,
      );
    }

enqueue-IsValid :
    (now : ℕ) (force : Bool) (job : Job) (jobs : Jobs)
    → count_where (has_id job.id) jobs ≡ 0
    → IsValid jobs
    → IsValid (enqueue now force job jobs).0
unfolding enqueue
enqueue-IsValid now force job jobs fresh v = elim (Option-cases (find (has_key job.key) jobs)) [
  | inl miss ↦ rw (miss, enqueue) (insert-IsValid now job jobs miss fresh v)
  | inr (r, hit) ↦
      rw (hit, enqueue)
        (if_IsValid force _ _ (free-IsValid _ _ jobs (requeue_row-Frees now job) v) v)
]

pub lease-IsValid :
    (uuid now timeout : ℕ) (jobs : Jobs)
    → count_where (holds_lease uuid) jobs ≡ 0
    → IsValid jobs
    → IsValid (lease uuid now timeout jobs).0
unfolding lease
lease-IsValid uuid now timeout jobs fresh v = elim (Option-cases (next_row now jobs)) [
  | inl e ↦ rw (e, lease) v
  | inr (r, e) ↦ rw (e, lease) (lease_row-IsValid uuid now timeout r.id jobs fresh v)
]

nack-IsValid :
    (opts : QueueOptions) (now : ℕ) (override : Option ℕ) (l retry_in : ℕ) (jobs : Jobs)
    → IsValid jobs
    → IsValid (nack opts now override l retry_in jobs)
unfolding nack
nack-IsValid opts now override l retry_in jobs v = elim (Option-cases (find (holds_lease l) jobs)) [
  | inl e ↦ rw (e, nack) v
  | inr (r, e) ↦
      rw (e, nack)
        (if_IsValid_jobs _ _ _ (free-IsValid _ _ jobs bury_row-Frees v)
          (free-IsValid _ _ jobs (retry_row-Frees _) v))
]

nack_transient-IsValid :
    (opts : QueueOptions) (now l : ℕ) (jobs : Jobs)
    → IsValid jobs
    → IsValid (nack_transient opts now l jobs)
unfolding nack_transient
nack_transient-IsValid opts now l jobs v = elim (Option-cases (find (holds_lease l) jobs)) [
  | inl e ↦ rw (e, nack_transient) v
  | inr (r, e) ↦ rw (e, nack_transient) (free-IsValid _ _ jobs (back_off_row-Frees _ _ _) v)
]

-- From a table in which each head, each id and each live lease stands in one row at most, and in
-- which a row is running exactly when it holds a lease (it then has the time of the lease, and its
-- delivery is counted), every call leaves such a table, if a UUID that it draws is in no row.
pub step-IsValid :
    (opts : QueueOptions) (jobs : Jobs) (c : Call)
    → Fresh c jobs
    → IsValid jobs
    → IsValid (step opts jobs c)
unfolding step ack
step-IsValid opts jobs (enqueues now force job) fresh v = enqueue-IsValid now force job jobs fresh v
step-IsValid opts jobs (leases uuid now timeout) fresh v =
    lease-IsValid uuid now timeout jobs fresh v
step-IsValid opts jobs (acks l) fresh v = free-IsValid _ _ jobs ack_row-Frees v
step-IsValid opts jobs (nacks now override l retry_in) fresh v =
    nack-IsValid opts now override l retry_in jobs v
step-IsValid opts jobs (nacks_transient now l) fresh v = nack_transient-IsValid opts now l jobs v

-- The invariant holds after any history of calls on a table in which it holds, such as the empty one, if
-- each id of an enqueued job and each UUID of a lease is fresh.
pub run-IsValid :
    (opts : QueueOptions) (cs : List Call) {jobs : Jobs}
    → AllFresh opts jobs cs
    → IsValid jobs
    → IsValid (run opts jobs cs)
unfolding run
run-IsValid opts [] fresh v = v
run-IsValid opts (c ∷ cs) {jobs} fresh v =
    run-IsValid opts cs fresh.1 (step-IsValid opts jobs c fresh.0 v)
