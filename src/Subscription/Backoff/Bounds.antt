-- ===== src/Subscription/Backoff/Bounds.antt =====
-- The delays between retries.
use vpn_platform.Prelude.{ℕ, zero, suc, ◌*◌, ◌-◌, ◌^◌, ◌≤◌, ◌<◌, ◌≡◌, arith, ltb, if◌then◌else◌}
use native.Mathlib.Nat.{mul-le-mul_left, pow-le-pow_right}
use vpn_platform.Prelude.Int.{pos, two_63, wrap64, scale}
use vpn_platform.Subscription.Backoff.{clamp_attempt, retry_backoff}

-- The first bases of the doubling.
factor_bounds : (k : ℕ) → k < 8 → (1 ≤ 2 ^ k) × (2 ^ k ≤ 128)
factor_bounds zero h = omega arith
factor_bounds (suc zero) h = omega arith
factor_bounds (suc (suc zero)) h = omega arith
factor_bounds (suc (suc (suc zero))) h = omega arith
factor_bounds (suc (suc (suc (suc zero)))) h = omega arith
factor_bounds (suc (suc (suc (suc (suc zero))))) h = omega arith
factor_bounds (suc (suc (suc (suc (suc (suc zero)))))) h = omega arith
factor_bounds (suc (suc (suc (suc (suc (suc (suc zero))))))) h = omega arith
factor_bounds (suc (suc (suc (suc (suc (suc (suc (suc k)))))))) h = absurd (omega arith)

clamp_bounds : (n : ℕ) → (1 ≤ clamp_attempt n) × (clamp_attempt n ≤ 8)
clamp_bounds n = ground arith

clamp_mono : (m n : ℕ) → m ≤ n → clamp_attempt m ≤ clamp_attempt n
clamp_mono m n h = ground arith

-- The wrap-around does nothing to a product below 2 ^ 63.
pub wrap64_small : (b k : ℕ) → b * k < two_63 → wrap64 (scale (pos b) k) ≡ pos (b * k)
wrap64_small b k h = ground arith

clamped_le : (m n : ℕ) → m ≤ n → clamp_attempt m - 1 ≤ clamp_attempt n - 1
clamped_le m n h = omega (arith, clamp_mono m n h)

-- The delay in nanoseconds, before the sign and the word size.
abbrev pub delay_ns : ℕ → ℕ → ℕ
delay_ns b n =
    let d = b * 2 ^ (clamp_attempt n - 1) in if ltb 300000000000 d then 300000000000 else d

module _ (b : ℕ) (small : b * 128 < two_63) where
  raw_small : (n : ℕ) → b * 2 ^ (clamp_attempt n - 1) < two_63
  raw_small n =
      let c = clamp_bounds n in
      let f = factor_bounds (clamp_attempt n - 1) (omega (arith, c)) in
      omega (arith, mul-le-mul_left b f.1)

  exact : (n : ℕ) → retry_backoff (pos b) n ≡ pos (delay_ns b n)
  unfolding retry_backoff
  exact n = rw (wrap64_small b (2 ^ (clamp_attempt n - 1)) (raw_small n)) (ground arith)

  -- A base below 2 ^ 56 nanoseconds (two years) gives the doubled delay exactly, at most five minutes;
  -- a positive base never gives a delay of zero, and a later attempt never waits less.
  pub retry_backoff_bounds :
      (m n : ℕ)
      → 0 < b
      → m ≤ n
      → (retry_backoff (pos b) m ≡ pos (delay_ns b m))
        × (0 < delay_ns b m)
        × (delay_ns b m ≤ delay_ns b n)
        × (delay_ns b n ≤ 300000000000)
  retry_backoff_bounds m n positive h =
      let f = factor_bounds (clamp_attempt m - 1) (omega (arith, clamp_bounds m)) in
      let one = mul-le-mul_left b f.0 in
      let grown = mul-le-mul_left b (pow-le-pow_right {n = 2} (omega arith) (clamped_le m n h)) in
      (exact m, ground arith, ground arith, ground arith)
