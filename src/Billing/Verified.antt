-- ===== src/Billing/Verified.antt =====
-- `ApplyVerifiedPayment` and `buildPaymentEvent` of services/billing/internal/postgres/store.go. The
-- JSON of an event stands as the values that it encodes.
pub mod Late
pub mod Again
use vpn_platform.Prelude.{
  ℕ, ◌+◌, Bool, true, false, not, ◌&&◌, ◌||◌, String, Option, none, some, List, [], ◌∷◌, ◌++◌, ◌==◌,
  if◌then◌else◌, exists, Result, ok, err,
}
use vpn_platform.Prelude.Text.{concat}
use vpn_platform.Billing.Types.{
  Error, state_conflict, internal, PaymentOperation, ProviderPayment, paid, canceled, pending,
  succeeded,
}
use vpn_platform.Billing.Status.{payment_settled, payment_status_text}
use vpn_platform.Billing.Schema.{
  PaymentRow, OutboxRow, OutboxState, Envelope, EventData, payment_succeeded, payment_canceled,
}
use vpn_platform.Billing.Transaction.{
  Tx, ◌>>=◌, ◌>>◌, return, ensure, get, transact, branch, fetched, random_uuid, write_outbox,
  update_orders, update_payments,
}
use vpn_platform.Billing.Orders.{with_order}
use vpn_platform.Billing.Payments.{with_payment, get_payment}

abbrev pub succeeded_topic : String
succeeded_topic = "billing.payment.succeeded.v1"

abbrev pub canceled_topic : String
canceled_topic = "billing.payment.canceled.v1"

abbrev pub envelope :
    PaymentOperation → (topic correlation_id event_id : String) → ℕ → EventData → Envelope
envelope p topic correlation_id event_id occurred_at content = record {
  event_id = event_id;
  event_type = topic;
  schema_version = 1;
  occurred_at = occurred_at;
  producer = "billing-service";
  correlation_id = correlation_id;
  aggregate_type = "payment";
  aggregate_id = p.payment.payment_id;
  partition_key = concat "user:" p.user_id;
  event_data = content;
}

abbrev pub succeeded_data : PaymentOperation → ℕ → EventData
succeeded_data p at' =
    payment_succeeded p.payment.payment_id p.payment.order_id p.user_id p.plan_id
      p.payment.amount_minor p.payment.currency at'

abbrev pub canceled_data : PaymentOperation → ℕ → EventData
canceled_data p at' = payment_canceled p.payment.payment_id p.payment.order_id p.user_id at'

-- The event of a payment that was captured, or canceled, at an instant that the provider gave.
abbrev pub captured_event : PaymentOperation → String → String → Option ℕ → Result Error Envelope
captured_event p correlation_id event_id none =
    err (internal "succeeded payment has no captured_at")
captured_event p correlation_id event_id (some t) =
    ok (envelope p succeeded_topic correlation_id event_id t (succeeded_data p t))

abbrev pub canceled_event : PaymentOperation → String → String → Option ℕ → Result Error Envelope
canceled_event p correlation_id event_id none =
    err (internal "canceled payment has no observed cancellation time")
canceled_event p correlation_id event_id (some t) =
    ok (envelope p canceled_topic correlation_id event_id t (canceled_data p t))

-- The topic and the instant of the result are `event_type` and `occurred_at`.
unfoldable pub build_payment_event :
    PaymentOperation → ProviderPayment → String → String → Result Error Envelope
build_payment_event payment provider correlation_id event_id =
    if provider.status == "succeeded"
    then captured_event payment correlation_id event_id provider.captured_at
    else if provider.status == "canceled"
    then canceled_event payment correlation_id event_id provider.canceled_at
    else err (internal "provider status is not terminal")

abbrev pub pending_row : ℕ → PaymentRow → PaymentRow
pending_row now p = record p {
  status = pending;
  next_reconcile_at = now + 60000000000;
  reconcile_lease_until = none;
  last_error_code = none;
  updated_at = now;
}

abbrev pub succeeded_row : ℕ → ℕ → PaymentRow → PaymentRow
succeeded_row t now p = record p {
  status = succeeded;
  confirmation_url = none;
  paid_at = some t;
  reconcile_lease_until = none;
  last_error_code = none;
  updated_at = now;
}

abbrev pub canceled_row : ℕ → ℕ → PaymentRow → PaymentRow
canceled_row t now p = record p {
  status = canceled;
  confirmation_url = none;
  canceled_at = some t;
  reconcile_lease_until = none;
  last_error_code = none;
  updated_at = now;
}

unfoldable pub succeed_payment : PaymentOperation → ℕ → ℕ → Tx (Unit {0})
succeed_payment p t now = do
  update_payments "succeed payment" (with_payment p.payment.payment_id) (succeeded_row t now)
  update_orders "pay order" (with_order p.payment.order_id) paid now

unfoldable pub cancel_payment : PaymentOperation → ℕ → ℕ → Tx (Unit {0})
cancel_payment p t now = do
  update_payments "cancel payment" (with_payment p.payment.payment_id) (canceled_row t now)
  update_orders "cancel order" (with_order p.payment.order_id) canceled now

abbrev pub outbox_row : Envelope → ℕ → OutboxRow
outbox_row e now = record {
  event_id = e.event_id;
  topic = e.event_type;
  partition_key = e.partition_key;
  aggregate_id = e.aggregate_id;
  payload = e;
  state = OutboxState.pending;
  attempts = 0;
  next_attempt_at = now;
  lease_until = none;
  created_at = now;
  published_at = none;
}

-- `UNIQUE (topic, aggregate_id)`.
abbrev pub announces : String → String → OutboxRow → Bool
announces topic aggregate_id o = o.topic == topic && o.aggregate_id == aggregate_id

unfoldable pub append_event : Envelope → ℕ → Tx (Unit {0})
append_event e now = do
  rows ← get (λ db. db.outbox)
  ensure (not (exists (λ o. o.event_id == e.event_id) rows)) (internal "insert billing outbox")
  write_outbox (λ os. os ++ outbox_row e now ∷ [])

-- `INSERT INTO outbox … ON CONFLICT (topic,aggregate_id) DO NOTHING`.
unfoldable pub insert_outbox : Envelope → ℕ → Tx (Unit {0})
insert_outbox e now = do
  rows ← get (λ db. db.outbox)
  branch (exists (announces e.event_type e.aggregate_id) rows) (return tt) (append_event e now)

unfoldable pub settle_payment :
    PaymentOperation → ProviderPayment → String → Option String → ℕ → Tx (Unit {0})
settle_payment current provider correlation_id uuid now = do
  event_id ← random_uuid uuid
  e ← fetched (build_payment_event current provider correlation_id event_id)
  branch (provider.status == "succeeded") (succeed_payment current e.occurred_at now)
      (cancel_payment current e.occurred_at now)
  insert_outbox e now

unfoldable pub apply_verified_payment :
    PaymentOperation → ProviderPayment → String → Option String → ℕ → Tx (Unit {0})
apply_verified_payment expected provider correlation_id uuid now = transact (do
  current ← get_payment (with_payment expected.payment.payment_id)
  branch (payment_settled current.payment.status)
      (ensure (payment_status_text current.payment.status == provider.status) state_conflict)
      (branch (provider.status == "pending")
        (update_payments "keep payment pending" (with_payment current.payment.payment_id)
          (pending_row now))
        (settle_payment current provider correlation_id uuid now)))
