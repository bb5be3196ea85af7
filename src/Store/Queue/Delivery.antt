-- ===== src/Store/Queue/Delivery.antt =====
-- Delivery: which job a lease hands out, and to whom.
use previewer.Prelude.{
  Bool, ◌&&◌, All-map, ℕ, ◌+◌, ◌≡◌, refl, ◌⊎◌, inl, inr, true, false, Option, none, some, arith,
  All, Option-cases, count_where, select_first_sound, count-zero_of_select, select_first-least,
  select_first-Has, Has,
}
use previewer.Store.Queue.{
  JobRow, Jobs, LeasedJob, is_leasable, older, leased_job, row_to_job, next_row, lease,
}

-- What `lease` returns for the row that it picks.
abbrev pub Delivers : ℕ → ℕ → JobRow → Option LeasedJob → Type 0
Delivers uuid now r out =
    (l : LeasedJob) × (out ≡ some l)
    × (l.id ≡ r.id)
    × (l.key ≡ r.key)
    × (l.lease_id ≡ uuid)
    × (l.attempts ≡ r.attempts + 1)
    × (l.full ≡ r.full_review)

none_before : (b c : Bool) → (b ≡ true → c ≡ false) → (b && c) ≡ false
none_before b c h = ground (arith, h)

older_asym : (a b : JobRow) → older a b ≡ true → older b a ≡ false
unfolding older
older_asym a b h = ground arith

older_cotrans : (a b c : JobRow) → older a b ≡ false → older b c ≡ false → older a c ≡ false
unfolding older
older_cotrans a b c h k = ground arith

-- `lease` hands out a job exactly when some job is open and its window has passed. The job is then
-- such a one, with its delivery counted, and no other such job was created before it (of those
-- created at the same time none has a smaller id).
lease_oldest :
    (uuid now timeout : ℕ) (jobs : Jobs)
    → ((count_where (is_leasable now) jobs ≡ 0) × ((lease uuid now timeout jobs).1 ≡ none))
      ⊎ ((r : JobRow) × Has r jobs
          × (is_leasable now r ≡ true)
          × All (λ x. (is_leasable now x && older x r) ≡ false) jobs
          × Delivers uuid now r (lease uuid now timeout jobs).1)
unfolding lease next_row leased_job row_to_job
lease_oldest uuid now timeout jobs = elim (Option-cases (next_row now jobs)) [
  | inl e ↦ inl (count-zero_of_select (is_leasable now) older jobs e, rw (e, lease))
  | inr (r, e) ↦ inr (
    r,
    select_first-Has (is_leasable now) older jobs r e,
    select_first_sound (is_leasable now) older jobs r e,
    All-map
        (λ (x : JobRow) (least : is_leasable now x ≡ true → older x r ≡ false).
          none_before _ _ least)
        jobs (select_first-least (is_leasable now) older older_asym older_cotrans jobs r e),
    rw (e, lease) (leased_job uuid now r, refl, refl, refl, refl, refl, refl),
  )
]
