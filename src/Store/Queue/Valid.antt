-- ===== src/Store/Queue/Valid.antt =====
-- What holds of every state of the table `jobs`, and of the updates that free a row.
use previewer.Prelude.{
  ℕ, ◌≤◌, ◌≡◌, refl, Bool, true, false, not, ◌&&◌, ◌||◌, none, [], arith, ◌==◌, is_some,
  update_where, count_where, count_where-update_where, count_where-update_where-le,
}
use previewer.Core.Keys.{ReviewKey}
use previewer.Core.State.{JobStatus}
use previewer.Store.Queue.{JobRow, Jobs, has_key, has_id, holds_lease}

abbrev pub is_running : JobStatus → Bool
is_running JobStatus.running = true
is_running _ = false

abbrev differ : Bool → Bool → Bool
differ true b = not b
differ false b = b

-- A row that is running without a lease, or holds one and does not run, or was never counted.
unfoldable pub is_torn : JobRow → Bool
is_torn r =
    differ (is_running r.status) (is_some r.lease_id)
    || differ (is_some r.lease_id) (is_some r.locked_at)
    || is_running r.status && r.attempts == 0

pub record IsValid (jobs : Jobs) : Type 0 where
  pub keys : (k : ReviewKey) → count_where (has_key k) jobs ≤ 1
  pub ids : (i : ℕ) → count_where (has_id i) jobs ≤ 1
  pub leases : (l : ℕ) → count_where (holds_lease l) jobs ≤ 1
  pub whole : count_where is_torn jobs ≡ 0

pub IsValid-empty : IsValid []
unfolding count_where
IsValid-empty = record {
  keys = λ k. omega arith;
  ids = λ i. omega arith;
  leases = λ l. omega arith;
  whole = refl;
}

-- What the updates that free a row have in common.
pub record Frees (g : JobRow → JobRow) : Type 0 where
  pub key : (r : JobRow) → (g r).key ≡ r.key
  pub id : (r : JobRow) → (g r).id ≡ r.id
  pub lease : (r : JobRow) → (g r).lease_id ≡ none
  pub whole : (r : JobRow) → is_torn (g r) ≡ false

pub free-IsValid :
    (q : JobRow → Bool) (g : JobRow → JobRow) (jobs : Jobs)
    → Frees g
    → IsValid jobs
    → IsValid (update_where q g jobs)
free-IsValid q g jobs f v = record {
  keys = λ k. rw (count_where-update_where (has_key k) q g (λ r. rw f.key)) (v.keys k);
  ids = λ i. rw (count_where-update_where (has_id i) q g (λ r. rw f.id)) (v.ids i);
  leases = λ l. omega (
    arith,
    v.leases l,
    count_where-update_where-le (holds_lease l) q g (λ r h. ground (arith, f.lease r)) jobs,
  );
  whole = omega (
    arith,
    v.whole,
    count_where-update_where-le is_torn q g (λ r h. ground (arith, f.whole r)) jobs,
  );
}
