-- ===== src/Store/Queue/Wake.antt =====
-- The wake-up time against what `lease` hands out.
use previewer.Prelude.{
  ℕ, ◌≤◌, ◌<◌, ◌≡◌, inl, inr, true, false, none, some, arith, All, All-map, Has, Option-cases,
  count_where, select_first, select_first_sound, count-zero_of_select, select_first-least,
  select_first-Has, All-of_count_zero, count_where_mono-All,
}
use previewer.Store.Queue.{JobRow, Jobs, is_leasable, pending, sooner, next_visible_at}

module _ (now : ℕ) (jobs : Jobs) where
  -- If nothing waits, no later time makes a job ready that is not ready now.
  next_visible_at-none :
      next_visible_at now jobs ≡ none
      → (t : ℕ) → count_where (is_leasable t) jobs ≤ count_where (is_leasable now) jobs
  unfolding next_visible_at is_leasable pending
  next_visible_at-none h t = elim (Option-cases (select_first (pending now) sooner jobs)) [
    | inl e ↦
        let quiet =
          All-of_count_zero (pending now) jobs (count-zero_of_select (pending now) sooner jobs e) in
        count_where_mono-All (is_leasable t) (is_leasable now) jobs
          (All-map (λ y k i. ground (arith, k)) jobs quiet)
    | inr (x, e) ↦ absurd (ground (arith, e))
  ]

  -- The wake-up time is in the future; at no time before it is a job ready that is not ready now;
  -- and against any time before it, there is a job that is ready at it and was not then.
  pub next_visible_at_exact :
      (t s : ℕ)
      → next_visible_at now jobs ≡ some t
      → s < t
      → (now < t)
        × (count_where (is_leasable s) jobs ≤ count_where (is_leasable now) jobs)
        × ((job : JobRow) × Has job jobs × (is_leasable t job ≡ true) × (is_leasable s job ≡ false))
  unfolding next_visible_at is_leasable pending sooner
  next_visible_at_exact t s h early = elim (Option-cases (select_first (pending now) sooner jobs)) [
    | inl e ↦ absurd (ground (arith, e))
    | inr (x, e) ↦
        let at : x.visible_at ≡ t = ground (arith, e) in
        let waits : pending now x ≡ true = select_first_sound (pending now) sooner jobs x e in
        let least : All (λ y. pending now y ≡ true → sooner y x ≡ false) jobs =
          select_first-least (pending now) sooner (λ a b k. ground arith)
            (λ a b c k m. ground arith) jobs x e in
        (
          ground (arith, waits),
          count_where_mono-All (is_leasable s) (is_leasable now) jobs
              (All-map (λ y k i. ground (arith, k, early)) jobs least),
          (
            x,
            select_first-Has (pending now) sooner jobs x e,
            ground (arith, waits),
            ground (arith, waits, early),
          ),
        )
  ]
