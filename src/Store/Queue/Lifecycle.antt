-- ===== src/Store/Queue/Lifecycle.antt =====
-- The life of a job: the calls move the row of a head along the edges of a state machine.
use previewer.Prelude.{
  ℕ, ◌+◌, ◌<◌, ◌≡◌, refl, inl, inr, Bool, true, false, Option, some, [], ◌∷◌, arith, ==_iff, find,
  get_or, leb, Option-cases, Bool-cases, and-left, update_where, find_sound, find-update_where,
  find-append_hit, select_first_sound, select_first-Has, Has, All-Has, find-Has, same_row,
  All-of_count_zero,
}
use previewer.Core.Keys.{ReviewKey}
use previewer.Core.State.{Job, JobStatus}
use previewer.Store.Queue.{
  JobRow, Jobs, QueueOptions, has_key, has_id, holds_lease, is_open, is_leasable, older, new_row,
  requeue_row, enqueue, lease_row, next_row, lease, ack_row, ack, bury_row, retry_row, nack,
  back_off_row, nack_transient,
}
use previewer.Store.Queue.Calls.{Call, enqueues, leases, acks, nacks, nacks_transient, step}
use previewer.Store.Queue.Valid.{IsValid, is_torn}

-- One move of a row. `take` is a lease, `finish` an ack, `bury` and `retry` a nack, `back_off` a
-- transient nack, and `reset` a forced enqueue.
pub data Move (r s : JobRow) : Type 0 where
  stay : s ≡ r → Move r s
  take :
      is_open r.status ≡ true
      → s.status ≡ JobStatus.running
      → s.attempts ≡ r.attempts + 1
      → s.transient_attempts ≡ r.transient_attempts
      → Move r s
  finish :
      r.status ≡ JobStatus.running → s.status ≡ JobStatus.done → s.attempts ≡ r.attempts → Move r s
  bury :
      r.status ≡ JobStatus.running
      → s.status ≡ JobStatus.dead_letter
      → s.attempts ≡ r.attempts
      → Move r s
  retry :
      r.status ≡ JobStatus.running
      → s.status ≡ JobStatus.queued
      → s.attempts ≡ r.attempts
      → s.transient_attempts ≡ r.transient_attempts
      → Move r s
  back_off :
      r.status ≡ JobStatus.running
      → s.status ≡ JobStatus.queued
      → s.attempts + 1 ≡ r.attempts
      → s.transient_attempts ≡ r.transient_attempts + 1
      → Move r s
  reset : s.status ≡ JobStatus.queued → s.attempts ≡ 0 → s.transient_attempts ≡ 0 → Move r s

-- The row of a head after a call: one that the old row moves to.
abbrev pub Moves : ReviewKey → JobRow → Jobs → Type 0
Moves k r jobs = (s : JobRow) × (find (has_key k) jobs ≡ some s) × Move r s

-- A whole row that holds a lease is running, and its delivery is counted.
running_of_lease :
    (l : ℕ) (r : JobRow)
    → is_torn r ≡ false
    → holds_lease l r ≡ true
    → (r.status ≡ JobStatus.running) × (0 < r.attempts)
unfolding is_torn
running_of_lease l r whole h = ground arith

-- An update that keeps the keys moves the row of a head, if it moves the rows that it asks for.
update-Moves :
    (q : JobRow → Bool) (g : JobRow → JobRow) (k : ReviewKey) (r : JobRow) (jobs : Jobs)
    → ((x : JobRow) → (g x).key ≡ x.key)
    → (q r ≡ true → Move r (g r))
    → find (has_key k) jobs ≡ some r
    → Moves k r (update_where q g jobs)
update-Moves q g k r jobs keeps moves h =
    let found = find-update_where (has_key k) q g (λ x. rw keeps) jobs h in
    elim (Bool-cases (q r)) [
      | inl e ↦ (g r, rw e at found, moves e)
      | inr e ↦ (r, rw e at found, stay refl)
    ]

stay-Moves :
    (k : ReviewKey) (r : JobRow) (jobs : Jobs) → find (has_key k) jobs ≡ some r → Moves k r jobs
stay-Moves k r jobs h = (r, h, stay refl)

-- In a valid table the row found by its head and the one found by a lease or a selection are one.
same_by_id :
    {jobs : Jobs} (r x : JobRow)
    → IsValid jobs
    → Has r jobs
    → Has x jobs
    → has_id x.id r ≡ true
    → r ≡ x
same_by_id {jobs} r x v i j e =
    same_row (has_id x.id) jobs r x (v.ids x.id) i j e ((==_iff x.id x.id).1 refl)

enqueue-Moves :
    (now : ℕ) (force : Bool) (job : Job) (k : ReviewKey) (r : JobRow) (jobs : Jobs)
    → find (has_key k) jobs ≡ some r
    → Moves k r (enqueue now force job jobs).0
unfolding enqueue requeue_row
enqueue-Moves now force job k r jobs h = elim (Option-cases (find (has_key job.key) jobs)) [
  | inl e ↦
      rw (e, enqueue) (r, find-append_hit (has_key k) jobs (new_row now job ∷ []) r h, stay refl)
  | inr (x, e) ↦ elim (Bool-cases force) [
    | inl f ↦
        rw (e, enqueue, f)
          (update-Moves _ (requeue_row now job) k r jobs (λ y. refl) (λ _. reset refl refl refl) h)
    | inr f ↦ rw (e, enqueue, f) (stay-Moves k r jobs h)
  ]
]

lease-Moves :
    (uuid now timeout : ℕ) (k : ReviewKey) (r : JobRow) (jobs : Jobs)
    → IsValid jobs
    → find (has_key k) jobs ≡ some r
    → Moves k r (lease uuid now timeout jobs).0
unfolding lease lease_row next_row is_leasable
lease-Moves uuid now timeout k r jobs v h = elim (Option-cases (next_row now jobs)) [
  | inl e ↦ rw (e, lease) (stay-Moves k r jobs h)
  | inr (x, e) ↦
      let open_row : is_open x.status ≡ true =
        and-left _ _ (select_first_sound (is_leasable now) older jobs x e) in
      rw (e, lease)
        (update-Moves _ (lease_row uuid now timeout) k r jobs (λ y. refl)
          (λ i.
            let same : r ≡ x =
              same_by_id r x v (find-Has _ jobs h) (select_first-Has _ older jobs x e) i in
            take (rw same open_row) refl refl refl)
          h)
]

ack-Moves :
    (l : ℕ) (k : ReviewKey) (r : JobRow) (jobs : Jobs)
    → IsValid jobs
    → find (has_key k) jobs ≡ some r
    → Moves k r (ack l jobs)
unfolding ack ack_row
ack-Moves l k r jobs v h =
    let whole = All-Has _ jobs (All-of_count_zero is_torn jobs v.whole) (find-Has _ jobs h) in
    update-Moves _ ack_row k r jobs (λ y. refl)
      (λ held. finish (running_of_lease l r whole held).0 refl refl) h

-- The row that a settled lease is in.
module _ (l : ℕ) (k : ReviewKey) (r x : JobRow) {jobs : Jobs} (v : IsValid jobs)
    (h : find (has_key k) jobs ≡ some r) (e : find (holds_lease l) jobs ≡ some x) where
  settled_running :
      has_id x.id r ≡ true → (r.status ≡ JobStatus.running) × (0 < r.attempts) × (r ≡ x)
  settled_running i =
      let same = same_by_id r x v (find-Has _ jobs h) (find-Has _ jobs e) i in
      let whole = All-Has _ jobs (All-of_count_zero is_torn jobs v.whole) (find-Has _ jobs h) in
      let run = running_of_lease l r whole (rw same (find_sound (holds_lease l) jobs x e)) in
      (run.0, run.1, same)

nack-Moves :
    (opts : QueueOptions) (now : ℕ) (override : Option ℕ) (l retry_in : ℕ) (k : ReviewKey)
    (r : JobRow) (jobs : Jobs)
    → IsValid jobs
    → find (has_key k) jobs ≡ some r
    → Moves k r (nack opts now override l retry_in jobs)
unfolding nack bury_row retry_row
nack-Moves opts now override l retry_in k r jobs v h =
    elim (Option-cases (find (holds_lease l) jobs)) [
      | inl e ↦ rw (e, nack) (stay-Moves k r jobs h)
      | inr (x, e) ↦ elim (Bool-cases (leb (get_or override opts.max_attempts) x.attempts)) [
        | inl spent ↦
            rw (e, nack, spent)
              (update-Moves _ bury_row k r jobs (λ y. refl)
                (λ i. bury (settled_running l k r x v h e i).0 refl refl) h)
        | inr left ↦
            rw (e, nack, left)
              (update-Moves _ (retry_row (now + retry_in)) k r jobs (λ y. refl)
                (λ i. retry (settled_running l k r x v h e i).0 refl refl refl) h)
      ]
    ]

nack_transient-Moves :
    (opts : QueueOptions) (now l : ℕ) (k : ReviewKey) (r : JobRow) (jobs : Jobs)
    → IsValid jobs
    → find (has_key k) jobs ≡ some r
    → Moves k r (nack_transient opts now l jobs)
unfolding nack_transient back_off_row
nack_transient-Moves opts now l k r jobs v h = elim (Option-cases (find (holds_lease l) jobs)) [
  | inl e ↦ rw (e, nack_transient) (stay-Moves k r jobs h)
  | inr (x, e) ↦
      rw (e, nack_transient)
        (update-Moves _ (back_off_row _ _ _) k r jobs (λ y. refl)
          (λ i.
            let (running, counted, same) = settled_running l k r x v h e i in
            back_off running refl (rw (← same) (omega arith)) (rw same refl))
          h)
]

-- No call loses the job of a head. In a valid table the job's row either stays as it is or makes one
-- move of the life cycle: an open job is taken and counted; a running one is finished, buried or
-- put back, and only a transient back-off takes the count of the delivery back; any job is reset.
pub step-Moves :
    (opts : QueueOptions) (jobs : Jobs) (c : Call) (k : ReviewKey) (r : JobRow)
    → IsValid jobs
    → find (has_key k) jobs ≡ some r
    → Moves k r (step opts jobs c)
unfolding step
step-Moves opts jobs (enqueues now force job) k r v h = enqueue-Moves now force job k r jobs h
step-Moves opts jobs (leases uuid now timeout) k r v h = lease-Moves uuid now timeout k r jobs v h
step-Moves opts jobs (acks l) k r v h = ack-Moves l k r jobs v h
step-Moves opts jobs (nacks now override l retry_in) k r v h =
    nack-Moves opts now override l retry_in k r jobs v h
step-Moves opts jobs (nacks_transient now l) k r v h = nack_transient-Moves opts now l k r jobs v h
