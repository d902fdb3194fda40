-- ===== src/Billing/Backoff.antt =====
-- `retryBackoff` of services/billing/internal/application/worker.go, in int64 nanoseconds. Up to the
-- jitter it is the code of the subscription service's `RetryBackoff`.
pub mod Bounds
use vpn_platform.Prelude.{ℕ, ◌+◌, ◌%◌, String, if◌then◌else◌}
use vpn_platform.Prelude.Int.{ℤ, wrap64, scale, ltb_ℤ, quotient}
use vpn_platform.Subscription.Backoff
use vpn_platform.Subscription.Backoff.{max_delay, clamp_attempt}

-- The first byte of the SHA-256 of a text "key:attempt".
abbrev pub Jitter : Type 0
Jitter = String → ℕ → ℕ

-- `80 + int(sum[0])%41`.
abbrev pub percent : Jitter → ℕ → String → ℕ
percent jitter attempt key = 80 + jitter key (clamp_attempt attempt) % 41

abbrev pub jittered : Jitter → ℤ → ℕ → String → ℤ
jittered jitter base attempt key =
    quotient (wrap64 (scale (Backoff.retry_backoff base attempt) (percent jitter attempt key))) 100

unfoldable pub retry_backoff : Jitter → ℤ → ℕ → String → ℤ
retry_backoff jitter base attempt key =
    if ltb_ℤ max_delay (jittered jitter base attempt key)
    then max_delay
    else jittered jitter base attempt key
