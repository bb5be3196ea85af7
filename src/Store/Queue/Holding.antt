-- ===== src/Store/Queue/Holding.antt =====
-- What it is for a job to be held by a lease, and the calls that leave it held.
use previewer.Prelude.{
  ℕ, ◌+◌, ◌<◌, ◌≡◌, refl, ◌≢◌, ◌⊎◌, Has, ap, same_row, inl, inr, Bool, true, false, Option, some,
  List, [], ◌∷◌, ◌++◌, arith, ==_iff, find, All, All-map, get_or, leb, Option-cases, Bool-cases,
  and-right, update_where, count_where, count_where-update_where, count_where-append, find_sound,
  select_first_sound, count-pos_of_select, select_first-Has, All-Has, find-Has,
}
use previewer.Core.Keys.{ReviewKey, same_key}
use previewer.Core.State.{Job, JobStatus}
use previewer.Store.Queue.{
  JobRow, Jobs, QueueOptions, LeasedJob, has_key, has_id, holds_lease, is_open, is_leasable, older,
  new_row, requeue_row, enqueue, lease_row, leased_job, row_to_job, next_row, lease, ack_row, ack,
  bury_row, retry_row, nack, back_off_row, nack_transient,
}
use previewer.Store.Queue.Valid.{IsValid}
use previewer.Store.Queue.Calls.{Call, enqueues, leases, acks, nacks, nacks_transient, step, run}

-- The rows with the id `i` are those of the head `k`, running under the lease `l` until the time `t`.
abbrev pub Held : ℕ → ReviewKey → ℕ → ℕ → JobRow → Type 0
Held i k l t x =
    has_id i x ≡ true
    → (x.lease_id ≡ some l) × (x.status ≡ JobStatus.running) × (x.visible_at ≡ t) × (x.key ≡ k)

-- A call that leaves the lease `l` of the job `i` of the head `k` alone: no forced enqueue of that
-- head, no settling of `l`, and no lease after `t`. A job that is enqueued has an id of its own.
abbrev pub Spares : ℕ → ReviewKey → ℕ → ℕ → Call → Type 0
Spares i k l t (enqueues now force job) =
    (job.id ≢ i) × ((force ≡ false) ⊎ (same_key k job.key ≡ false))
Spares i k l t (leases uuid now timeout) = now < t
Spares i k l t (acks m) = m ≢ l
Spares i k l t (nacks now override m retry_in) = m ≢ l
Spares i k l t (nacks_transient now m) = m ≢ l

abbrev pub SparesAll : ℕ → ReviewKey → ℕ → ℕ → List Call → Type 0
SparesAll i k l t cs = All (Spares i k l t) cs

-- The rows with the id `i` are held, and there is one.
pub record IsHeld (i : ℕ) (k : ReviewKey) (l t : ℕ) (jobs : Jobs) : Type 0 where
  pub held : All (Held i k l t) jobs
  pub there : 0 < count_where (has_id i) jobs

module _ (i : ℕ) (k : ReviewKey) (l t : ℕ) where
  update-Held :
      (q : JobRow → Bool) (g : JobRow → JobRow) (jobs : Jobs)
      → ((x : JobRow) → (g x).id ≡ x.id)
      → All (λ x. q x ≡ true → has_id i x ≡ false) jobs
      → All (Held i k l t) jobs
      → All (Held i k l t) (update_where q g jobs)
  unfolding update_where
  update-Held q g [] keeps other h = tt
  update-Held q g (x ∷ jobs) keeps other h = elim (Bool-cases (q x)) [
    | inl e ↦ (
      rw e (λ h. absurd (ground (arith, keeps x, other.0 e))),
      update-Held q g jobs keeps other.1 h.1,
    )
    | inr e ↦ (rw e h.0, update-Held q g jobs keeps other.1 h.1)
  ]

  update-IsHeld :
      (q : JobRow → Bool) (g : JobRow → JobRow) (jobs : Jobs)
      → ((x : JobRow) → (g x).id ≡ x.id)
      → All (λ x. q x ≡ true → has_id i x ≡ false) jobs
      → IsHeld i k l t jobs
      → IsHeld i k l t (update_where q g jobs)
  update-IsHeld q g jobs keeps other h = record {
    held = update-Held q g jobs keeps other h.held;
    there = rw (count_where-update_where (has_id i) q g (λ x. rw keeps)) h.there;
  }

  append-Held :
      (jobs : Jobs) (x : JobRow)
      → All (Held i k l t) jobs
      → Held i k l t x
      → All (Held i k l t) (jobs ++ x ∷ [])
  append-Held [] x h last = (last, tt)
  append-Held (y ∷ jobs) x h last = (h.0, append-Held jobs x h.1 last)

  -- A row of another head is not held.
  other_head :
      (key : ReviewKey) (jobs : Jobs)
      → same_key k key ≡ false
      → All (Held i k l t) jobs
      → All (λ x. has_key key x ≡ true → has_id i x ≡ false) jobs
  other_head key [] ne h = tt
  other_head key (x ∷ jobs) ne h = (
    λ same. elim (Bool-cases (has_id i x)) [
      | inl e ↦ absurd (ground (arith, ne, rw (h.0 e).3 at same))
      | inr e ↦ e
    ],
    other_head key jobs ne h.1,
  )

  enqueue-IsHeld :
      (now : ℕ) (force : Bool) (job : Job) (jobs : Jobs)
      → job.id ≢ i
      → (force ≡ false) ⊎ (same_key k job.key ≡ false)
      → IsHeld i k l t jobs
      → IsHeld i k l t (enqueue now force job jobs).0
  unfolding enqueue new_row requeue_row
  enqueue-IsHeld now force job jobs ne spared h =
      elim (Option-cases (find (has_key job.key) jobs)) [
        | inl e ↦
            rw (e, enqueue)
              (record {
                held =
                    append-Held jobs (new_row now job) h.held (λ e. absurd (ne ((==_iff _ _).0 e)));
                there =
                    omega
                      (arith, h.there, count_where-append (has_id i) jobs (new_row now job ∷ []));
              })
        | inr (x, e) ↦ elim spared [
          | inl weak ↦ rw (e, enqueue, weak) h
          | inr head ↦
              let reset =
                update-IsHeld (has_key job.key) (requeue_row now job) jobs (λ y. refl)
                  (other_head job.key jobs head h.held) h in
              elim (Bool-cases force) [
                | inl strong ↦ rw (e, enqueue, strong) reset
                | inr weak ↦ rw (e, enqueue, weak) h
              ]
        ]
      ]

  -- A row of another lease, or one whose window has passed, is not held: no row with its id is.
  other_row :
      (x : JobRow) (jobs : Jobs)
      → has_id i x ≡ false
      → All (λ y. has_id x.id y ≡ true → has_id i y ≡ false) jobs
  other_row x [] h = tt
  other_row x (y ∷ jobs) h = (λ e. ground arith, other_row x jobs h)

  lease-IsHeld :
      (uuid now timeout : ℕ) (jobs : Jobs)
      → now < t
      → IsHeld i k l t jobs
      → IsHeld i k l t (lease uuid now timeout jobs).0
  unfolding lease lease_row next_row is_leasable
  lease-IsHeld uuid now timeout jobs early h = elim (Option-cases (next_row now jobs)) [
    | inl e ↦ rw (e, lease) h
    | inr (x, e) ↦
        let due =
          and-right (is_open x.status) (leb x.visible_at now)
            (select_first_sound (is_leasable now) older jobs x e) in
        let held : Held i k l t x =
          All-Has (Held i k l t) jobs h.held (select_first-Has (is_leasable now) older jobs x e) in
        rw (e, lease)
          (update-IsHeld (has_id x.id) (lease_row uuid now timeout) jobs (λ y. refl)
            (other_row x jobs (ground (arith, due, held))) h)
  ]

  ack-IsHeld : (m : ℕ) (jobs : Jobs) → m ≢ l → IsHeld i k l t jobs → IsHeld i k l t (ack m jobs)
  unfolding ack ack_row
  ack-IsHeld m jobs ne h =
      update-IsHeld (holds_lease m) ack_row jobs (λ y. refl)
        (All-map (λ y held e. ground (arith, held)) jobs h.held) h

  -- A row that is found by another lease is not held.
  found_other :
      (m : ℕ) (x : JobRow) (jobs : Jobs)
      → m ≢ l
      → IsHeld i k l t jobs
      → find (holds_lease m) jobs ≡ some x
      → has_id i x ≡ false
  found_other m x jobs ne h e =
      let held : Held i k l t x = All-Has (Held i k l t) jobs h.held (find-Has _ jobs e) in
      ground (arith, held, find_sound (holds_lease m) jobs x e)

  nack-IsHeld :
      (opts : QueueOptions) (now : ℕ) (override : Option ℕ) (m retry_in : ℕ) (jobs : Jobs)
      → m ≢ l
      → IsHeld i k l t jobs
      → IsHeld i k l t (nack opts now override m retry_in jobs)
  unfolding nack bury_row retry_row
  nack-IsHeld opts now override m retry_in jobs ne h =
      elim (Option-cases (find (holds_lease m) jobs)) [
        | inl e ↦ rw (e, nack) h
        | inr (x, e) ↦
            let other = other_row x jobs (found_other m x jobs ne h e) in
            elim (Bool-cases (leb (get_or override opts.max_attempts) x.attempts)) [
              | inl c ↦ rw (e, nack, c) (update-IsHeld _ bury_row jobs (λ y. refl) other h)
              | inr c ↦ rw (e, nack, c) (update-IsHeld _ (retry_row _) jobs (λ y. refl) other h)
            ]
      ]

  nack_transient-IsHeld :
      (opts : QueueOptions) (now m : ℕ) (jobs : Jobs)
      → m ≢ l
      → IsHeld i k l t jobs
      → IsHeld i k l t (nack_transient opts now m jobs)
  unfolding nack_transient back_off_row
  nack_transient-IsHeld opts now m jobs ne h = elim (Option-cases (find (holds_lease m) jobs)) [
    | inl e ↦ rw (e, nack_transient) h
    | inr (x, e) ↦
        rw (e, nack_transient)
          (update-IsHeld _ (back_off_row _ _ _) jobs (λ y. refl)
            (other_row x jobs (found_other m x jobs ne h e)) h)
  ]

  step-IsHeld :
      (opts : QueueOptions) (jobs : Jobs) (c : Call)
      → Spares i k l t c
      → IsHeld i k l t jobs
      → IsHeld i k l t (step opts jobs c)
  unfolding step
  step-IsHeld opts jobs (enqueues now force job) s h = enqueue-IsHeld now force job jobs s.0 s.1 h
  step-IsHeld opts jobs (leases uuid now timeout) s h = lease-IsHeld uuid now timeout jobs s h
  step-IsHeld opts jobs (acks m) s h = ack-IsHeld m jobs s h
  step-IsHeld opts jobs (nacks now override m retry_in) s h =
      nack-IsHeld opts now override m retry_in jobs s h
  step-IsHeld opts jobs (nacks_transient now m) s h = nack_transient-IsHeld opts now m jobs s h

  pub run-IsHeld :
      (opts : QueueOptions) (jobs : Jobs) (cs : List Call)
      → SparesAll i k l t cs
      → IsHeld i k l t jobs
      → IsHeld i k l t (run opts jobs cs)
  unfolding run
  run-IsHeld opts jobs [] s h = h
  run-IsHeld opts jobs (c ∷ cs) s h =
      run-IsHeld opts (step opts jobs c) cs s.1 (step-IsHeld opts jobs c s.0 h)

-- The rows with the id `i` are those of the head `k`.
abbrev OfHead : ℕ → ReviewKey → Jobs → Type 0
OfHead i k jobs = (y : JobRow) → Has y jobs → has_id i y ≡ true → y.key ≡ k

leased_rows :
    (i : ℕ) (k : ReviewKey) (uuid now timeout : ℕ) (jobs : Jobs)
    → OfHead i k jobs
    → All
        (Held i k uuid (now + timeout))
        (update_where (has_id i) (lease_row uuid now timeout) jobs)
unfolding update_where lease_row
leased_rows i k uuid now timeout [] own = tt
leased_rows i k uuid now timeout (x ∷ jobs) own = elim (Bool-cases (has_id i x)) [
  | inl e ↦ (
    rw e (λ h. (refl, refl, refl, own x (inl refl) e)),
    leased_rows i k uuid now timeout jobs (λ y h. own y (inr h)),
  )
  | inr e ↦ (
    rw e (λ h. absurd (ground arith)),
    leased_rows i k uuid now timeout jobs (λ y h. own y (inr h)),
  )
]

-- What `lease` leaves behind when it hands out a job.
pub lease_holds :
    (uuid now timeout : ℕ) (jobs : Jobs) (out : LeasedJob)
    → IsValid jobs
    → (lease uuid now timeout jobs).1 ≡ some out
    → IsHeld out.id out.key uuid (now + timeout) (lease uuid now timeout jobs).0
unfolding lease leased_job row_to_job lease_row next_row
lease_holds uuid now timeout jobs out valid h = elim (Option-cases (next_row now jobs)) [
  | inl e ↦ absurd (ground (arith, e))
  | inr (x, e) ↦
      let same : x.id ≡ out.id = ground (arith, e) in
      let same_head : x.key ≡ out.key = ground (arith, e) in
      rw (← same, ← same_head, e, lease)
        (record {
          held = leased_rows x.id x.key uuid now timeout jobs (λ y here is_it.
              ap (λ r. r.key)
                (same_row (has_id x.id) jobs y x (valid.ids x.id) here
                  (select_first-Has (is_leasable now) older jobs x e) is_it
                  ((==_iff x.id x.id).1 refl)));
          there =
              rw
                (count_where-update_where (has_id x.id) (has_id x.id) (lease_row uuid now timeout)
                  (λ y. refl))
                (count-pos_of_select (is_leasable now) older (has_id x.id) jobs x e
                  ((==_iff x.id x.id).1 refl));
        })
]
