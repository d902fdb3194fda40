-- ===== src/Billing/Tests.antt =====
-- The theorems at a concrete history of the billing service.
mod Model
mod Fixtures
use vpn_platform.Prelude.{
  ℕ, ◌≡◌, ◌≤◌, ◌*◌, ◌+◌, refl, String, Bool, true, false, none, some, ok, err, List, [], ◌∷◌, arith,
  map, inl, inr, sym, ◌∙◌,
}
use vpn_platform.Prelude.Int.{pos}
use vpn_platform.Prelude.Text.{codes}
use vpn_platform.Subscription.Types.{PaymentSucceeded}
use vpn_platform.Subscription.Backoff.Bounds.{delay_ns}
use vpn_platform.Billing.Types.{
  Order, OrderStatus, PaymentStatus, internal, succeeded, paid, PaymentOperation,
}
use vpn_platform.Billing.Schema.{Database, Envelope, OrderRow, PaymentRow, OutboxRow, published}
use vpn_platform.Billing.Orders.{order_of, order_row}
use vpn_platform.Billing.Orders.Replay.{order_call-again}
use vpn_platform.Billing.Payments.{operation_of}
use vpn_platform.Billing.Verified.{
  envelope, succeeded_data, succeeded_topic, apply_verified_payment,
}
use vpn_platform.Billing.Verified.Late.{apply_verified_payment-after_failure}
use vpn_platform.Billing.Verified.Again.{apply_verified_payment-again}
use vpn_platform.Billing.Money.{parse_minor, format_minor, print_int, print_two, digits, digits_on}
use vpn_platform.Billing.Money.RoundTrip.{parse_minor-format_minor}
use vpn_platform.Billing.Backoff.{retry_backoff}
use vpn_platform.Billing.Backoff.Bounds.{retry_backoff-jitter_bounds}
use vpn_platform.Billing.Contract.{Source, payment_of}
use vpn_platform.Billing.Service.{order_call}
use vpn_platform.Billing.System.{run, empty_database}
use vpn_platform.Billing.Ledger.{Books, IsExact}
use vpn_platform.Billing.Ledger.History.{run-Books}
use vpn_platform.Prelude.{exists}
use vpn_platform.Retention
use vpn_platform.Billing.Retention.{processed_webhooks}
use vpn_platform.Billing.Retention.Kept.{HasKeys, SameBut, run-SameBut}
use vpn_platform.Billing.Tests.Model.{model}
use vpn_platform.Billing.Tests.Fixtures.{
  user, order_uuid, payment_uuid, event_uuid, hash, plan, reported, config, outside, history,
  given_up, given_up_order, after_failure, order_placed, payment_started,
}

-- The history ends with a paid order, a payment that succeeded, and its event published.
history_pays :
    (map (λ (o : OrderRow). o.status) (run config history empty_database).orders ≡ paid ∷ [])
    × (map (λ (p : PaymentRow). p.status) (run config history empty_database).payments
        ≡ succeeded ∷ [])
    × (map (λ (o : OutboxRow). o.state) (run config history empty_database).outbox ≡ published ∷ [])
unfolding model
history_pays = (refl, refl, refl)

run-Books_example :
    Books none (run config history empty_database) × IsExact (run config history empty_database)
run-Books_example = run-Books config history

parse_minor-format_minor_example : parse_minor (format_minor (pos 50005)) ≡ ok (pos 50005)
parse_minor-format_minor_example = parse_minor-format_minor 50005 (omega arith)

-- The provider's text of the amount.
printed : format_minor (pos 50005) ≡ codes "500.05"
unfolding format_minor print_int print_two digits digits_on
printed = refl

retry_backoff-jitter_bounds_example :
    (r : ℕ) × (retry_backoff outside.jitter (pos 1000000000) 3 "key" ≡ pos r)
    × (r ≤ 300000000000)
    × (delay_ns 1000000000 3 * 80 ≤ r * 100 + 99)
    × (r * 100 ≤ delay_ns 1000000000 3 * 120)
retry_backoff-jitter_bounds_example =
    retry_backoff-jitter_bounds outside.jitter 1000000000 3 "key" (omega arith) (omega arith)

apply_verified_payment-after_failure_example :
    apply_verified_payment
      (operation_of given_up given_up_order)
      (reported "succeeded" (some 70))
      event_uuid
      (some event_uuid)
      81
      after_failure
    ≡ (err (internal "succeed payment"), after_failure)
unfolding model
apply_verified_payment-after_failure_example =
    apply_verified_payment-after_failure (operation_of given_up given_up_order)
      (reported "succeeded" (some 70)) event_uuid event_uuid 70 81 after_failure given_up
      given_up_order refl refl refl refl refl

-- What the first call answers, and leaves.
abbrev placed : Order
placed = order_of (record given_up_order { status = OrderStatus.created; updated_at = 10 })

abbrev with_placed : Database
with_placed = run config (order_placed ∷ []) empty_database

order_call-again_example :
    order_call config outside user "monthly" "eu" "v1" "key-0001" none 90 with_placed
    ≡ (ok (placed, false), with_placed)
unfolding model
order_call-again_example =
    order_call-again config outside outside user "monthly" "eu" "v1" "key-0001" (some order_uuid)
      none 10 90 placed true empty_database with_placed refl refl

abbrev with_payment_pending : Database
with_payment_pending = run config (order_placed ∷ payment_started ∷ []) empty_database

apply_verified_payment-again_example :
    apply_verified_payment
      (operation_of given_up given_up_order)
      (reported "succeeded" (some 70))
      event_uuid
      none
      90
      (apply_verified_payment
        (operation_of given_up given_up_order)
        (reported "succeeded" (some 70))
        event_uuid
        (some event_uuid)
        81
        with_payment_pending).1
    ≡ (
      ok tt,
      (apply_verified_payment
          (operation_of given_up given_up_order)
          (reported "succeeded" (some 70))
          event_uuid
          (some event_uuid)
          81
          with_payment_pending).1,
    )
unfolding model
apply_verified_payment-again_example =
    apply_verified_payment-again (operation_of given_up given_up_order)
      (reported "succeeded" (some 70)) event_uuid event_uuid (some event_uuid) none 81 90
      with_payment_pending _ refl refl

abbrev charged : PaymentOperation
charged = operation_of given_up given_up_order

abbrev source : Source
source = record { partition = 0; offset = 3; payload_sha256 = hash }

abbrev bought : PaymentSucceeded
bought = record {
  payment_id = payment_uuid;
  order_id = order_uuid;
  user_id = user;
  plan_id = "monthly";
  amount_minor = pos 50000;
  currency = "RUB";
  paid_at = 70;
}

abbrev sent : Envelope
sent = envelope charged succeeded_topic event_uuid event_uuid 70 (succeeded_data charged 70)

one_webhook : HasKeys (run config history empty_database)
unfolding model
one_webhook r s (inl e) (inl f) h = e ∙ sym f
one_webhook r s (inl e) (inr m) h = absurd m
one_webhook r s (inr m) k h = absurd m

-- After the history the one webhook is processed, and a run deletes it.
run-SameBut_example :
    SameBut false
      (run config history empty_database)
      (Retention.run "billing" 2000000000
        (record { dry_run = false; batch_size = pos 10; max_delete = pos 100 })
        (processed_webhooks [] 5 (pos 1000000000) ∷ [])
        (run config history empty_database)).1
unfolding exists
run-SameBut_example =
    run-SameBut [] 5 "billing" 2000000000
      (record { dry_run = false; batch_size = pos 10; max_delete = pos 100 }) (pos 1000000000)
      (run config history empty_database) one_webhook
