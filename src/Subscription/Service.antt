-- ===== src/Subscription/Service.antt =====
-- The event handlers of services/subscription/internal/application/service.go, over the store.
use vpn_platform.Prelude.{String, Result, Option}
use vpn_platform.Subscription.Types.{Error, EventMeta, PaymentSucceeded, RefundSucceeded, Order}
use vpn_platform.Subscription.Schema.{Runtime}
use vpn_platform.Subscription.Transaction.{Tx, ◌>>=◌, ◌>>◌, return, branch, fetched, Clock}
use vpn_platform.Subscription.Validation.{validate_payment, validate_refund, validate_order}
use vpn_platform.Subscription.Payment.{record_payment_replay, apply_payment}
use vpn_platform.Subscription.Refund.{store_refund}

-- `billing.GetOrder`, a call of the billing service.
abbrev pub Billing : Type 0
Billing = String → String → Result Error Order

module _ ⦃rt : Runtime⦄ (get_order : Billing) where
  -- What `HandlePayment` does with a payment that is not applied yet.
  unfoldable pub apply_order :
      EventMeta
      → PaymentSucceeded
      → Option String
      → Option String
      → Option String
      → Clock
      → Tx (Unit {0})
  apply_order meta payment subscription_uuid period_uuid event_uuid clock = do
    order ← fetched (get_order payment.user_id payment.order_id)
    fetched (validate_order payment order)
    apply_payment meta payment order subscription_uuid period_uuid event_uuid clock

  -- The two transactions commit on their own, at their own clocks.
  unfoldable pub handle_payment :
      EventMeta
      → PaymentSucceeded
      → Option String
      → Option String
      → Option String
      → Clock
      → Clock
      → Tx (Unit {0})
  handle_payment meta payment subscription_uuid period_uuid event_uuid replay_clock clock = do
    fetched (validate_payment meta payment)
    recorded ← record_payment_replay meta payment replay_clock
    branch recorded (return tt)
        (apply_order meta payment subscription_uuid period_uuid event_uuid clock)

module _ ⦃rt : Runtime⦄ where
  unfoldable pub handle_refund : EventMeta → RefundSucceeded → Option String → Clock → Tx (Unit {0})
  handle_refund meta refund event_uuid clock = do
    fetched (validate_refund meta refund)
    store_refund meta refund event_uuid clock
