-- ===== src/Store/Queue/Backoff.antt =====
-- The back-off of transient failures.
use native.Mathlib.Nat.{pow-suc, add-zero}
use previewer.Prelude.{ℕ, zero, suc, ◌+◌, ◌-◌, ◌*◌, ◌^◌, ◌≤◌, ◌<◌, min, max, ◌≡◌, arith}
use previewer.Store.Queue.{QueueOptions, transient_backoff_ms}

doubled : (b n : ℕ) → b * 2 ^ max 0 (suc (suc n) - 1) ≡ 2 * (b * 2 ^ max 0 (suc n - 1))
doubled b n =
    let next : max 0 (suc (suc n) - 1) ≡ suc n = omega arith in
    let this : max 0 (suc n - 1) ≡ n = omega arith in rw (next, this, pow-suc) (omega arith)

-- The first failure waits for the base, each further one twice as long as the one before, and none
-- longer than the cap.
pub transient_backoff_doubles :
    (opts : QueueOptions) (n : ℕ)
    → (transient_backoff_ms opts 1 ≡ min opts.transient_base_ms opts.transient_cap_ms)
      × (transient_backoff_ms opts (suc (suc n))
          ≡ min (2 * transient_backoff_ms opts (suc n)) opts.transient_cap_ms)
unfolding transient_backoff_ms
transient_backoff_doubles opts n = (omega arith, omega (arith, doubled opts.transient_base_ms n))

capped : (opts : QueueOptions) (n : ℕ) → transient_backoff_ms opts n ≤ opts.transient_cap_ms
unfolding transient_backoff_ms
capped opts n = omega arith

-- So it never shrinks from one failure to a later one, and is never longer than the cap.
pub transient_backoff_mono :
    (opts : QueueOptions) (n k : ℕ)
    → 0 < n
    → (transient_backoff_ms opts n ≤ transient_backoff_ms opts (n + k))
      × (transient_backoff_ms opts (n + k) ≤ opts.transient_cap_ms)
transient_backoff_mono opts zero k h = elim h [ ]
transient_backoff_mono opts (suc n) zero h = rw add-zero (omega (arith, capped opts (suc n)))
transient_backoff_mono opts (suc n) (suc k) h =
    let step = transient_backoff_doubles opts (n + k) in
    let this = transient_backoff_mono opts (suc n) k h in
    let next : suc n + suc k ≡ suc (suc (n + k)) = omega arith in
    let here : suc n + k ≡ suc (n + k) = omega arith in
    rw next (omega (arith, step.1, rw here at this))
