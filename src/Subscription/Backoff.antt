-- ===== src/Subscription/Backoff.antt =====
-- `RetryBackoff` of services/subscription/internal/application/service.go, in int64 nanoseconds.
pub mod Bounds
use vpn_platform.Prelude.{ℕ, ◌-◌, ◌^◌, ltb, if◌then◌else◌}
use vpn_platform.Prelude.Int.{ℤ, pos, wrap64, scale, ltb_ℤ}

-- `5 * time.Minute`.
abbrev pub max_delay : ℤ
max_delay = pos 300000000000

-- The attempt, clamped to 1 … 8. The counter of attempts is never negative.
abbrev pub clamp_attempt : ℕ → ℕ
clamp_attempt n = if ltb n 1 then 1 else if ltb 8 n then 8 else n

-- `base * time.Duration(1<<uint(attempt-1))`, which wraps.
abbrev pub raw_delay : ℤ → ℕ → ℤ
raw_delay base attempt = wrap64 (scale base (2 ^ (clamp_attempt attempt - 1)))

unfoldable pub retry_backoff : ℤ → ℕ → ℤ
retry_backoff base attempt =
    if ltb_ℤ max_delay (raw_delay base attempt) then max_delay else raw_delay base attempt
