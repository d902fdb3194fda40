-- ===== src/Subscription/Plan.antt =====
-- The dates of a payment's period, in `applyPayment` of
-- services/subscription/internal/postgres/store.go.
use vpn_platform.Prelude.{
  ℕ, String, Bool, true, false, not, ◌&&◌, Option, none, some, ltb, if◌then◌else◌,
}
use vpn_platform.Prelude.Int.{ℤ, wrap64, scale}
use vpn_platform.Subscription.Types.{Status, active, grace, PaymentSucceeded, Order, Subscription}
use vpn_platform.Subscription.Schema.{SubscriptionRow}
use vpn_platform.Subscription.Transaction.{add_duration}

-- The columns that the Go code reads.
abbrev pub subscription_of : SubscriptionRow → Subscription
subscription_of r = record {
  subscription_id = r.id;
  user_id = r.user_id;
  status = r.status;
  current_period_start = r.current_period_start;
  current_period_end = r.current_period_end;
  grace_ends_at = r.grace_ends_at;
}

-- `time.Duration(days) * 24 * time.Hour`, and the same of hours, in nanoseconds.
abbrev pub days : ℤ → ℤ
days n = wrap64 (scale n 86400000000000)

abbrev pub hours : ℤ → ℤ
hours n = wrap64 (scale n 3600000000000)

abbrev pub is_running : Status → Bool
is_running active = true
is_running grace = true
is_running _ = false

-- `graceEndsAt != nil && now.Before(*graceEndsAt)`.
abbrev pub grace_open : Option ℕ → ℕ → Bool
grace_open none now = false
grace_open (some g) now = ltb now g

-- The end of the running period that the payment extends.
abbrev pub extends : Subscription → Bool → ℕ → Option ℕ
extends s created now =
    if not created && (is_running s.status && grace_open s.grace_ends_at now)
    then s.current_period_end
    else none

-- The dates of the new period, and of the subscription, that `applyPayment` computes.
pub record Plan : Type 0 where
  pub topic : String
  pub period_start : ℕ
  pub period_end : ℕ
  pub grace_end : ℕ
  pub start : ℕ

abbrev pub plan_from : String → ℕ → Order → Option ℕ → Plan
plan_from topic start order current_start =
    let end = add_duration start (days order.plan_snapshot.duration_days) in
    record {
      topic = topic;
      period_start = start;
      period_end = end;
      grace_end = add_duration end (hours order.plan_snapshot.grace_period_hours);
      start = elim current_start [ none ↦ start | some t ↦ t ];
    }

unfoldable pub plan_of : Subscription → Bool → PaymentSucceeded → Order → ℕ → Plan
plan_of s created payment order now = elim (extends s created now) [
  | some end ↦ plan_from "subscription.extended.v1" end order s.current_period_start
  | none ↦ plan_from "subscription.activated.v1" payment.paid_at order none
]
