-- ===== src/Billing/Backoff/Bounds.antt =====
-- The delays between retries, with their jitter.
use vpn_platform.Prelude.{ℕ, ◌+◌, ◌*◌, ◌/◌, ◌≤◌, ◌<◌, ◌≡◌, arith, String, ltb, if◌then◌else◌}
use native.Mathlib.Nat.{mul-le-mul_left}
use vpn_platform.Prelude.Int.{pos, two_63}
use vpn_platform.Subscription.Backoff.Bounds.{delay_ns, wrap64_small, retry_backoff_bounds}
use vpn_platform.Billing.Backoff.{Jitter, percent, retry_backoff}

percent_bounds :
    (jitter : Jitter) (n : ℕ) (key : String)
    → (80 ≤ percent jitter n key) × (percent jitter n key ≤ 120)
percent_bounds jitter n key = (omega arith, omega arith)

-- A share of `d` by a percentage from 80 to 120.
share_bounds :
    (d p : ℕ) → 80 ≤ p → p ≤ 120 → d ≤ 300000000000 → (d * 80 ≤ d * p) × (d * p ≤ d * 120)
share_bounds d p lo hi h = (mul-le-mul_left d lo, mul-le-mul_left d hi)

abbrev pub capped_ns : ℕ → ℕ
capped_ns x = if ltb 300000000000 (x / 100) then 300000000000 else x / 100

-- For a positive base below 2 ^ 56 nanoseconds the delay is the doubled and capped base, times a
-- percentage that the key and the attempt fix, from 80 to 120, and at most five minutes; nothing
-- overflows.
pub retry_backoff-jitter_bounds :
    (jitter : Jitter) (b n : ℕ) (key : String)
    → b * 128 < two_63
    → 0 < b
    → (r : ℕ) × (retry_backoff jitter (pos b) n key ≡ pos r)
      × (r ≤ 300000000000)
      × (delay_ns b n * 80 ≤ r * 100 + 99)
      × (r * 100 ≤ delay_ns b n * 120)
unfolding retry_backoff
retry_backoff-jitter_bounds jitter b n key small positive =
    let (e, z, m, d) = retry_backoff_bounds b small n n positive (omega arith) in
    let (lo, hi) = percent_bounds jitter n key in
    let (s, t) = share_bounds (delay_ns b n) (percent jitter n key) lo hi d in
    (
      capped_ns (delay_ns b n * percent jitter n key),
      rw (e, wrap64_small (delay_ns b n) (percent jitter n key) (omega (arith, t, d)))
          (ground arith),
      ground arith,
      ground arith,
      ground arith,
    )
