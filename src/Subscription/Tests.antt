-- ===== src/Subscription/Tests.antt =====
-- The theorems at a concrete history of the service.
mod Model
mod Fixtures
use vpn_platform.Prelude.{
  ℕ, zero, suc, ◌<◌, ◌≤◌, ◌≡◌, ◌≢◌, refl, find, String, Bool, true, false, none, some, ok, List, [],
  ◌∷◌, inl, inr, arith,
}
use vpn_platform.Prelude.Int.{pos}
use vpn_platform.Subscription.Types.{
  Subscription, EventMeta, PaymentSucceeded, RefundSucceeded, Order, AdminRevokeInput,
  AdminRevokeResult, revoked, active,
}
use vpn_platform.Subscription.Schema.{
  Runtime, Database, OutboxRow, PeriodRow, SubscriptionRow, published,
}
use vpn_platform.Subscription.Transaction.{Tx, Clock}
use vpn_platform.Subscription.Entitlement.{EntitlementState, calculate_entitlement}
use vpn_platform.Subscription.Entitlement.Bounds.{IsLive, calculate_entitlement-IsLive}
use vpn_platform.Subscription.Entitlement.Refinement.{
  status_of, entitled_status, calculate_entitlement-entitled_status,
}
use vpn_platform.Subscription.Inbox.Replay.{IsCanonical}
use vpn_platform.Subscription.Outbox.{outbox_row, with_id}
use vpn_platform.Subscription.Payment.{period_row, new_subscription, apply_payment}
use vpn_platform.Subscription.Plan.{plan_of}
use vpn_platform.Subscription.Payment.Idempotence.{apply_payment-again}
use vpn_platform.Subscription.Refund.{store_refund, apply_refund}
use vpn_platform.Subscription.Refund.Revival.{revived, apply_refund_revives}
use vpn_platform.Subscription.Refund.Idempotence.{store_refund-again}
use vpn_platform.Subscription.Due.{claim_due, complete_due}
use vpn_platform.Subscription.Due.Progress.{NotDue, complete_due-NotDue}
use vpn_platform.Subscription.Admin.{admin_event, admin_revoke}
use vpn_platform.Subscription.Admin.Idempotence.{admin_revoke-again}
use vpn_platform.Subscription.Validation.Bounds.{HasDates, plan_of-HasDates}
use vpn_platform.Subscription.Backoff.{retry_backoff}
use vpn_platform.Subscription.Backoff.Bounds.{delay_ns, retry_backoff_bounds}
use vpn_platform.Subscription.System.{Call, payment, round, run, empty_database}
use vpn_platform.Subscription.Worker.{Worker, Round}
use vpn_platform.Subscription.Delivery.History.{run-published}
use vpn_platform.Subscription.Tests.Model.{model}
use vpn_platform.Subscription.Tests.Fixtures.{
  runtime, user, id1, id2, hash, meta, bought, order, at_time, history, row_at, final,
}

run-published_example : (row_at 0 final.outbox).state ≡ published
unfolding model
run-published_example =
    run-published history (row_at 1 final.outbox) (row_at 0 final.outbox) (inr (inl refl))
      (inl refl) refl (omega arith) (λ e. ground (arith, e))

-- The entitlement after the two payments: two months in one chain.
abbrev month : EntitlementState
month = record {
  status = active;
  start = 5;
  end = 5184000000000005;
  grace_end = 5443200000000005;
  next = some 5184000000000005;
  period = period_row id1 "subscription" (bought id1) (order id1) (record {
    topic = "";
    period_start = 5;
    period_end = 2592000000000005;
    grace_end = 2851200000000005;
    start = 5;
  });
}

calculate_entitlement-IsLive_example : IsLive 10 month
unfolding model
calculate_entitlement-IsLive_example =
    calculate_entitlement-IsLive final.periods "subscription" 10 {e = month} refl

calculate_entitlement-entitled_status_example :
    status_of (calculate_entitlement final.periods "subscription" 10)
    ≡ entitled_status final.periods "subscription" 10
unfolding model
calculate_entitlement-entitled_status_example =
    calculate_entitlement-entitled_status final.periods "subscription" 10
      ((omega arith, omega arith), ((omega arith, omega arith), tt))

paid_once : Tx (Unit {0})
paid_once =
    apply_payment (meta id1 1) (bought id1) (order id1) (some "subscription") (some id1)
      (some "message1") (at_time 10)

canonical : IsCanonical (meta id1 1) id1 user
canonical = record {
  aggregate_text = refl;
  payment_text = refl;
  user_text = refl;
  correlation_text = refl;
}

apply_payment-again_example :
    apply_payment
      (meta id1 1)
      (bought id1)
      (order id2)
      none
      none
      none
      (at_time 90)
      (paid_once empty_database).1
    ≡ (ok tt, (paid_once empty_database).1)
unfolding model paid_once
apply_payment-again_example =
    apply_payment-again (meta id1 1) (bought id1) (order id1) (order id2) (some "subscription")
      (some id1) (some "message1") none none none (at_time 10) (at_time 90) empty_database
      (paid_once empty_database).1 canonical refl

refund_meta : EventMeta
refund_meta = record (meta id2 7) {
  event_type = "billing.refund.succeeded.v1";
  source_topic = "billing.refund.succeeded.v1";
}

refund_one : RefundSucceeded
refund_one = record {
  refund_id = id2;
  payment_id = id1;
  order_id = id1;
  user_id = user;
  amount_minor = pos 500;
  currency = "EUR";
  refund_scope = "full";
  refunded_at = 5;
}

refunded_once : Tx (Unit {0})
refunded_once = store_refund refund_meta refund_one (some "message2") (at_time 40)

store_refund-again_example :
    store_refund refund_meta refund_one none
      (at_time 90)
      (refunded_once (paid_once empty_database).1).1
    ≡ (ok tt, (refunded_once (paid_once empty_database).1).1)
unfolding model paid_once refunded_once refund_meta refund_one
store_refund-again_example =
    store_refund-again refund_meta refund_one (some "message2") none (at_time 40) (at_time 90)
      (paid_once empty_database).1 (refunded_once (paid_once empty_database).1).1
      (record {
        aggregate_text = refl;
        payment_text = refl;
        user_text = refl;
        correlation_text = refl;
      })
      refl

abbrev request : AdminRevokeInput
request = record {
  subscription_id = "subscription";
  idempotency_key = "key";
  request_sha256 = hash;
  action_id = id2;
  correlation_id = id2;
  reason_code = "abuse";
}

revoked_once : Tx AdminRevokeResult
revoked_once = admin_revoke request (some "message3") (at_time 50)

admin_revoke-again_example : admin_revoke request none (at_time 90) (revoked_once final).1 ≡ (
  ok (record {
    subscription_id = "subscription";
    status = revoked;
    reason_code = "abuse";
    replay = true;
  }),
  (revoked_once final).1,
)
unfolding model revoked_once
admin_revoke-again_example =
    admin_revoke-again request (some "message3") none (at_time 50) (at_time 90) final
      (revoked_once final).1
      (record {
        subscription_id = "subscription";
        status = revoked;
        reason_code = "abuse";
        replay = false;
      })
      refl refl

abbrev first_or : {A : Type 0} → A → List A → A
first_or d [] = d
first_or d (x ∷ xs) = x

abbrev rest_of : {A : Type 0} → List A → List A
rest_of [] = []
rest_of (x ∷ xs) = xs

-- After the two payments and the revocation: the second period, and the subscription.
abbrev blocked : Database
blocked = (admin_revoke request (some "message3") (at_time 50) final).1

abbrev second_period : PeriodRow
second_period = first_or month.period (rest_of blocked.periods)

abbrev blocked_row : SubscriptionRow
blocked_row = first_or (new_subscription "" "" 0) blocked.subscriptions

abbrev refund_two : RefundSucceeded
refund_two = record {
  refund_id = id1;
  payment_id = id2;
  order_id = id2;
  user_id = user;
  amount_minor = pos 500;
  currency = "EUR";
  refund_scope = "full";
  refunded_at = 60;
}

abbrev one_month : EntitlementState
one_month = record month {
  end = 2592000000000005;
  grace_end = 2851200000000005;
  next = some 2592000000000005;
}

apply_refund_revives_example :
    (apply_refund (meta id1 9) refund_two none (at_time 60) blocked ≡ (
      ok true,
      revived (meta id1 9) refund_two none (at_time 60) second_period blocked_row one_month blocked,
    ))
    × ((r : SubscriptionRow) × (find
            (with_id "subscription")
            (revived
              (meta id1 9)
              refund_two
              none
              (at_time 60)
              second_period
              blocked_row
              one_month
              blocked).subscriptions
          ≡ some r)
        × (r.status ≢ revoked))
unfolding model
apply_refund_revives_example =
    apply_refund_revives (meta id1 9) refund_two none (at_time 60) second_period blocked_row blocked
      one_month refl refl refl refl refl refl refl (omega arith) (omega arith)

-- The worker takes the subscription up when the second month is over.
abbrev leased_database : Database
leased_database = (claim_due 5184000000000010 30000000000 final).1

abbrev leased_row : SubscriptionRow
leased_row = first_or (new_subscription "" "" 0) leased_database.subscriptions

complete_due-NotDue_example :
    NotDue "subscription" 5184000000000020
      (complete_due "subscription" (some "message4") (at_time 5184000000000020) leased_database).1
unfolding model
complete_due-NotDue_example =
    complete_due-NotDue "subscription" leased_row (some "message4") (at_time 5184000000000020)
      5184030000000010 leased_database
      (complete_due "subscription" (some "message4") (at_time 5184000000000020) leased_database).1
      refl refl refl

abbrev running : Subscription
running = record {
  subscription_id = "subscription";
  user_id = user;
  status = active;
  current_period_start = some 5;
  current_period_end = some 20;
  grace_ends_at = some 30;
}

plan_of-HasDates_example : HasDates (order id2) (plan_of running false (bought id2) (order id2) 10)
unfolding model
plan_of-HasDates_example = plan_of-HasDates (bought id2) (order id2) running false 10 refl

retry_backoff_bounds_example :
    (retry_backoff (pos 1000000000) 2 ≡ pos (delay_ns 1000000000 2))
    × (0 < delay_ns 1000000000 2)
    × (delay_ns 1000000000 2 ≤ delay_ns 1000000000 9)
    × (delay_ns 1000000000 9 ≤ 300000000000)
retry_backoff_bounds_example =
    retry_backoff_bounds 1000000000 (omega arith) 2 9 (omega arith) (omega arith)
