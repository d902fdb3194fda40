-- ===== src/Subscription/Delivery/Stores.antt =====
-- The parts of the payment and refund transactions keep the order of delivery.
use vpn_platform.Prelude.{ℕ, refl, String, Bool, Option, none, some}
use vpn_platform.Prelude.Int.{ℤ}
use vpn_platform.Subscription.Types
use vpn_platform.Subscription.Types.{
  EventMeta, PaymentSucceeded, RefundSucceeded, RefundWork, Order, Subscription, Error,
  AdminRevokeInput,
}
use vpn_platform.Subscription.Schema.{Runtime, SubscriptionRow, PeriodRow, AdminRevokeRow}
use vpn_platform.Subscription.Transaction.{Clock}
use vpn_platform.Subscription.Transaction.Keeps.{Keeps}
use vpn_platform.Subscription.Entitlement.{EntitlementState}
use vpn_platform.Subscription.Payment.{
  add_period, apply_known, apply_new, apply_payment, record_replay, record_payment_replay,
}
use vpn_platform.Subscription.Refund.{
  refund_period, settle_refund, revoked_row, refund_paid, refund_known, apply_refund,
  recover_refund, try_refund, reschedule_refund,
}
use vpn_platform.Subscription.Due.{claim_due, lease_due, leased}
use vpn_platform.Subscription.Admin.{replay_revoke}
use vpn_platform.Subscription.Delivery.{InOrder}
use vpn_platform.Subscription.Delivery.Quiet.{
  quiet_rules, claim_refund-InOrder, insert_period-InOrder, check_refunded-InOrder,
  write_subscriptions-InOrder, insert_inbox-InOrder, mark_inbox_processed-InOrder,
  set_processed_at-InOrder, dead_letter_inbox-InOrder, update_subscription-InOrder,
}
use vpn_platform.Subscription.Delivery.Sends.{
  insert_outbox-InOrder, complete_outbox-InOrder, retry_outbox-InOrder,
  get_or_create_subscription-InOrder, claim_outbox-InOrder,
}

pub lease_due-InOrder :
    (now lease : ℕ) (r : SubscriptionRow) → Keeps InOrder (lease_due now lease r)
unfolding lease_due
lease_due-InOrder now lease r =
    search (quiet_rules, write_subscriptions-InOrder _ (leased _) (λ s. refl) (λ s. refl)) depth 12

pub claim_due-InOrder : (now lease : ℕ) → Keeps InOrder (claim_due now lease)
unfolding claim_due
claim_due-InOrder now lease = search (quiet_rules, lease_due-InOrder) depth 12

pub replay_revoke-InOrder :
    (r : AdminRevokeRow) (input : AdminRevokeInput) → Keeps InOrder (replay_revoke r input)
unfolding replay_revoke
replay_revoke-InOrder r input = search quiet_rules depth 12

module _ ⦃rt : Runtime⦄ where
  pub ruleset store_rules = (
    quiet_rules, insert_period-InOrder, check_refunded-InOrder, insert_inbox-InOrder,
    mark_inbox_processed-InOrder, set_processed_at-InOrder, dead_letter_inbox-InOrder,
    update_subscription-InOrder, insert_outbox-InOrder, get_or_create_subscription-InOrder,
  )

  pub add_period-InOrder :
      (m : EventMeta) (p : PaymentSucceeded) (o : Order) (s : Subscription) (new : Bool)
      (a b : Option String) (c : Clock)
      → Keeps InOrder (add_period m p o s new a b c)
  unfolding add_period
  add_period-InOrder m p o s new a b c = search store_rules depth 16

  pub apply_known-InOrder :
      (m : EventMeta) (p : PaymentSucceeded) (c : Clock) (f : PeriodRow × SubscriptionRow)
      → Keeps InOrder (apply_known m p c f)
  unfolding apply_known
  apply_known-InOrder m p c f = search store_rules depth 12

  pub apply_new-InOrder :
      (m : EventMeta) (p : PaymentSucceeded) (o : Order) (a b d : Option String) (c : Clock)
      → Keeps InOrder (apply_new m p o a b d c)
  unfolding apply_new
  apply_new-InOrder m p o a b d c = search (store_rules, add_period-InOrder) depth 12

  pub apply_payment-InOrder :
      (m : EventMeta) (p : PaymentSucceeded) (o : Order) (a b d : Option String) (c : Clock)
      → Keeps InOrder (apply_payment m p o a b d c)
  unfolding apply_payment
  apply_payment-InOrder m p o a b d c =
      search (store_rules, apply_known-InOrder, apply_new-InOrder) depth 12

  pub record_replay-InOrder :
      (m : EventMeta) (p : PaymentSucceeded) (c : Clock) (f : PeriodRow × SubscriptionRow)
      → Keeps InOrder (record_replay m p c f)
  unfolding record_replay
  record_replay-InOrder m p c f = search store_rules depth 12

  pub record_payment_replay-InOrder :
      (m : EventMeta) (p : PaymentSucceeded) (c : Clock)
      → Keeps InOrder (record_payment_replay m p c)
  unfolding record_payment_replay
  record_payment_replay-InOrder m p c = search (store_rules, record_replay-InOrder) depth 12

  pub refund_period-InOrder :
      (id : String) (r : RefundSucceeded) → Keeps InOrder (refund_period id r)
  unfolding refund_period
  refund_period-InOrder id r = search store_rules depth 12

  pub settle_refund-InOrder :
      (m : EventMeta) (r : RefundSucceeded) (p : PeriodRow) (s : SubscriptionRow)
      (a : Option String) (c : Clock) (e : Option EntitlementState)
      → Keeps InOrder (settle_refund m r p s a c e)
  unfolding settle_refund
  settle_refund-InOrder m r p s a c none =
      search (store_rules, write_subscriptions-InOrder _ (revoked_row _) (λ s. refl) (λ s. refl))
        depth 12
  settle_refund-InOrder m r p s a c (some e) = search store_rules depth 12

  pub refund_paid-InOrder :
      (m : EventMeta) (r : RefundSucceeded) (a : Option String) (c : Clock) (p : PeriodRow)
      (s : SubscriptionRow)
      → Keeps InOrder (refund_paid m r a c p s)
  unfolding refund_paid
  refund_paid-InOrder m r a c p s =
      search (store_rules, refund_period-InOrder, settle_refund-InOrder) depth 12

  pub refund_known-InOrder :
      (m : EventMeta) (r : RefundSucceeded) (a : Option String) (c : Clock)
      (f : PeriodRow × SubscriptionRow)
      → Keeps InOrder (refund_known m r a c f)
  unfolding refund_known
  refund_known-InOrder m r a c f = search (store_rules, refund_paid-InOrder) depth 12

  pub apply_refund-InOrder :
      (m : EventMeta) (r : RefundSucceeded) (a : Option String) (c : Clock)
      → Keeps InOrder (apply_refund m r a c)
  unfolding apply_refund
  apply_refund-InOrder m r a c = search (store_rules, refund_known-InOrder) depth 12

  pub recover_refund-InOrder :
      (id : String) (now : ℕ) (e : Error) → Keeps InOrder (recover_refund id now e)
  unfolding recover_refund
  recover_refund-InOrder id now Types.conflict = search store_rules depth 12
  recover_refund-InOrder id now _ = search store_rules depth 12

  pub try_refund-InOrder :
      (m : EventMeta) (id : String) (r : RefundSucceeded) (a : Option String) (c : Clock)
      → Keeps InOrder (try_refund m id r a c)
  unfolding try_refund
  try_refund-InOrder m id r a c =
      search (store_rules, apply_refund-InOrder, recover_refund-InOrder) depth 12

  pub reschedule_refund-InOrder :
      (id : String) (now : ℕ) (d : ℤ) → Keeps InOrder (reschedule_refund id now d)
  unfolding reschedule_refund
  reschedule_refund-InOrder id now d = search store_rules depth 12
