-- ===== src/Billing/Status.antt =====
-- The statuses of orders and payments: what the triggers of services/billing/migrations allow, and the
-- tests of services/billing/internal/postgres/store.go.
use vpn_platform.Prelude.{Bool, true, false, String}
use vpn_platform.Billing.Types.{
  OrderStatus, PaymentStatus, created, payment_pending, paid, canceled, verification_pending,
  pending, succeeded, failed,
}

abbrev pub payment_status_text : PaymentStatus → String
payment_status_text created = "created"
payment_status_text verification_pending = "verification_pending"
payment_status_text pending = "pending"
payment_status_text succeeded = "succeeded"
payment_status_text canceled = "canceled"
payment_status_text failed = "failed"

-- `reject_order_snapshot_change`, the transitions of a status.
abbrev pub order_transition : OrderStatus → OrderStatus → Bool
order_transition created created = true
order_transition payment_pending payment_pending = true
order_transition paid paid = true
order_transition canceled canceled = true
order_transition created payment_pending = true
order_transition created canceled = true
order_transition payment_pending paid = true
order_transition payment_pending canceled = true
order_transition _ _ = false

-- `enforce_payment_invariants`, the transitions of a status.
abbrev pub payment_transition : PaymentStatus → PaymentStatus → Bool
payment_transition created created = true
payment_transition created verification_pending = true
payment_transition created pending = true
payment_transition created failed = true
payment_transition verification_pending verification_pending = true
payment_transition verification_pending pending = true
payment_transition verification_pending succeeded = true
payment_transition verification_pending canceled = true
payment_transition verification_pending failed = true
payment_transition pending pending = true
payment_transition pending succeeded = true
payment_transition pending canceled = true
payment_transition pending failed = true
payment_transition succeeded succeeded = true
payment_transition canceled canceled = true
payment_transition failed failed = true
payment_transition _ _ = false

-- `status IN ('created', 'payment_pending')`.
abbrev pub order_open : OrderStatus → Bool
order_open created = true
order_open payment_pending = true
order_open _ = false

-- `status IN ('created', 'verification_pending', 'pending')`.
abbrev pub payment_active : PaymentStatus → Bool
payment_active created = true
payment_active verification_pending = true
payment_active pending = true
payment_active _ = false

-- `status == "created" || status == "verification_pending"`.
abbrev pub awaits_creation : PaymentStatus → Bool
awaits_creation created = true
awaits_creation verification_pending = true
awaits_creation _ = false

-- `status == "succeeded" || status == "canceled"`.
abbrev pub payment_settled : PaymentStatus → Bool
payment_settled succeeded = true
payment_settled canceled = true
payment_settled _ = false
