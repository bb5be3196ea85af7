-- ===== src/Store/Queue/Enqueuing.antt =====
-- What a call of `enqueue` without force leaves for a head.
use previewer.Prelude.{
  ℕ, ◌≡◌, refl, true, false, some, [], ◌∷◌, find, find-append_hit, find-append_miss, is_some, arith,
  Option-cases, inl, inr,
}
use previewer.Core.Keys.{ReviewKey, same_key_refl}
use previewer.Core.State.{Job}
use previewer.Store.Queue.{JobRow, Jobs, duplicate, has_key, new_row, enqueue}

pub enqueue_known :
    (now : ℕ) (job : Job) (jobs : Jobs) (r : JobRow)
    → find (has_key job.key) jobs ≡ some r
    → enqueue now false job jobs ≡ (jobs, duplicate)
unfolding enqueue
enqueue_known now job jobs r e = rw (e, enqueue) refl

pub enqueue-present :
    (now : ℕ) (job : Job) (jobs : Jobs)
    → is_some (find (has_key job.key) (enqueue now false job jobs).0) ≡ true
unfolding enqueue
enqueue-present now job jobs = elim (Option-cases (find (has_key job.key) jobs)) [
  | inl e ↦
      rw
        (
          e,
          enqueue,
          find-append_miss (has_key job.key) jobs (new_row now job ∷ []) e,
          same_key_refl job.key,
        )
        refl
  | inr (r, e) ↦ rw (e, enqueue, e) refl
]

pub enqueue-stays :
    (now : ℕ) (job : Job) (jobs : Jobs) (k : ReviewKey)
    → is_some (find (has_key k) jobs) ≡ true
    → is_some (find (has_key k) (enqueue now false job jobs).0) ≡ true
unfolding enqueue
enqueue-stays now job jobs k h = elim (Option-cases (find (has_key job.key) jobs)) [
  | inr (r, e) ↦ rw (e, enqueue) h
  | inl e ↦ elim (Option-cases (find (has_key k) jobs)) [
    | inl missing ↦ absurd (ground (arith, h, missing))
    | inr (r, found) ↦
        rw (e, enqueue, find-append_hit (has_key k) jobs (new_row now job ∷ []) r found) refl
  ]
]
