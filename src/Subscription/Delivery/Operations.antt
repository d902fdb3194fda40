-- ===== src/Subscription/Delivery/Operations.antt =====
-- Every operation of the service keeps the order of delivery.
use vpn_platform.Prelude.{ℕ, refl, String, Bool, true, false, Option, none, some}
use vpn_platform.Prelude.Int.{ℤ}
use vpn_platform.Subscription.Types.{
  EventMeta, PaymentSucceeded, RefundSucceeded, RefundWork, AdminRevokeInput,
}
use vpn_platform.Subscription.Schema.{Runtime, Database, SubscriptionRow, OutboxRow}
use vpn_platform.Subscription.Transaction.{Clock, return}
use vpn_platform.Subscription.Transaction.Keeps.{Keeps}
use vpn_platform.Subscription.Entitlement.{EntitlementState}
use vpn_platform.Subscription.Refund.{
  finish_refund, store_refund, reschedule_refund, apply_claimed_refund,
}
use vpn_platform.Subscription.Due.{complete_due, expire, advance, expired_row}
use vpn_platform.Subscription.Admin.{admin_revoke, perform_revoke, record_revoke, admin_revoked_row}
use vpn_platform.Subscription.Service.{Billing, handle_payment, apply_order, handle_refund}
use vpn_platform.Subscription.Worker.{
  Worker, Publisher, Round, reconcile_refund, advance_lifecycle, settle_message, publish_outbox,
  work_once,
}
use vpn_platform.Subscription.Delivery.{InOrder}
use vpn_platform.Subscription.Delivery.Quiet.{claim_refund-InOrder, write_subscriptions-InOrder}
use vpn_platform.Subscription.Delivery.Sends.{
  complete_outbox-InOrder, retry_outbox-InOrder, claim_outbox-InOrder,
}
use vpn_platform.Subscription.Delivery.Stores.{
  store_rules, claim_due-InOrder, replay_revoke-InOrder, apply_payment-InOrder,
  record_payment_replay-InOrder, try_refund-InOrder, reschedule_refund-InOrder,
}

module _ ⦃rt : Runtime⦄ where
  finish_refund-InOrder :
      (id : String) (now : ℕ) (e : RefundWork) (d : ℤ) (o : Option Bool)
      → Keeps InOrder (finish_refund id now (reschedule_refund e.inbox_id now d) o)
  unfolding finish_refund
  finish_refund-InOrder id now e d none = search store_rules
  finish_refund-InOrder id now e d (some true) = search store_rules
  finish_refund-InOrder id now e d (some false) = search (store_rules, reschedule_refund-InOrder)

  finish_stored-InOrder :
      (id : String) (now : ℕ) (o : Option Bool) → Keeps InOrder (finish_refund id now (return tt) o)
  unfolding finish_refund
  finish_stored-InOrder id now none = search store_rules
  finish_stored-InOrder id now (some true) = search store_rules
  finish_stored-InOrder id now (some false) = search store_rules

  store_refund-InOrder :
      (m : EventMeta) (r : RefundSucceeded) (a : Option String) (c : Clock)
      → Keeps InOrder (store_refund m r a c)
  unfolding store_refund
  store_refund-InOrder m r a c =
      search (store_rules, try_refund-InOrder, finish_stored-InOrder) depth 12

  apply_claimed_refund-InOrder :
      (w : RefundWork) (d : ℤ) (a : Option String) (c : Clock)
      → Keeps InOrder (apply_claimed_refund w d a c)
  unfolding apply_claimed_refund
  apply_claimed_refund-InOrder w d a c =
      search (store_rules, try_refund-InOrder, finish_refund-InOrder w.inbox_id c.now w d) depth 12

  expire-InOrder :
      (id : String) (s : SubscriptionRow) (a : Option String) (c : Clock)
      → Keeps InOrder (expire id s a c)
  unfolding expire
  expire-InOrder id s a c =
      search (store_rules, write_subscriptions-InOrder _ (expired_row _) (λ r. refl) (λ r. refl))
        depth 12

  advance-InOrder :
      (id : String) (s : SubscriptionRow) (e : EntitlementState) (a : Option String) (c : Clock)
      → Keeps InOrder (advance id s e a c)
  unfolding advance
  advance-InOrder id s e a c = search store_rules depth 16

  complete_due-InOrder :
      (id : String) (a : Option String) (c : Clock) → Keeps InOrder (complete_due id a c)
  unfolding complete_due
  complete_due-InOrder id a c = search (store_rules, expire-InOrder, advance-InOrder) depth 16

  record_revoke-InOrder :
      (input : AdminRevokeInput) (now : ℕ) → Keeps InOrder (record_revoke input now)
  unfolding record_revoke
  record_revoke-InOrder input now = search store_rules depth 12

  perform_revoke-InOrder :
      (input : AdminRevokeInput) (a : Option String) (c : Clock)
      → Keeps InOrder (perform_revoke input a c)
  unfolding perform_revoke
  perform_revoke-InOrder input a c =
      search
        (
          store_rules,
          record_revoke-InOrder,
          write_subscriptions-InOrder _ (admin_revoked_row _) (λ s. refl) (λ s. refl),
        )
        depth 20

  pub admin_revoke-InOrder :
      (input : AdminRevokeInput) (a : Option String) (c : Clock)
      → Keeps InOrder (admin_revoke input a c)
  unfolding admin_revoke
  admin_revoke-InOrder input a c =
      search (store_rules, perform_revoke-InOrder, replay_revoke-InOrder) depth 12

  apply_order-InOrder :
      (b : Billing) (m : EventMeta) (p : PaymentSucceeded) (x y z : Option String) (c : Clock)
      → Keeps InOrder (apply_order b m p x y z c)
  unfolding apply_order
  apply_order-InOrder b m p x y z c = search (store_rules, apply_payment-InOrder) depth 12

  pub handle_payment-InOrder :
      (b : Billing) (m : EventMeta) (p : PaymentSucceeded) (x y z : Option String) (c d : Clock)
      → Keeps InOrder (handle_payment b m p x y z c d)
  unfolding handle_payment
  handle_payment-InOrder b m p x y z c d =
      search (store_rules, record_payment_replay-InOrder, apply_order-InOrder) depth 12

  pub handle_refund-InOrder :
      (m : EventMeta) (r : RefundSucceeded) (a : Option String) (c : Clock)
      → Keeps InOrder (handle_refund m r a c)
  unfolding handle_refund
  handle_refund-InOrder m r a c = search (store_rules, store_refund-InOrder) depth 12

  reconcile_refund-InOrder : (w : Worker) (r : Round) → Keeps InOrder (reconcile_refund w r)
  unfolding reconcile_refund
  reconcile_refund-InOrder w r =
      search (store_rules, claim_refund-InOrder, apply_claimed_refund-InOrder) depth 12

  advance_lifecycle-InOrder : (w : Worker) (r : Round) → Keeps InOrder (advance_lifecycle w r)
  unfolding advance_lifecycle
  advance_lifecycle-InOrder w r =
      search (store_rules, claim_due-InOrder, complete_due-InOrder) depth 12

  settle_message-InOrder :
      (w : Worker) (publish : Publisher) (now : ℕ) (o : OutboxRow)
      → Keeps InOrder (settle_message w publish now o)
  unfolding settle_message
  settle_message-InOrder w publish now o =
      search (store_rules, complete_outbox-InOrder, retry_outbox-InOrder) depth 12

  publish_outbox-InOrder :
      (w : Worker) (publish : Publisher) (r : Round) → Keeps InOrder (publish_outbox w publish r)
  unfolding publish_outbox
  publish_outbox-InOrder w publish r =
      search (store_rules, claim_outbox-InOrder, settle_message-InOrder) depth 12

  pub work_once-InOrder :
      (w : Worker) (publish : Publisher) (r : Round) (db : Database)
      → InOrder db
      → InOrder (work_once w publish r db)
  unfolding work_once
  work_once-InOrder w publish r db i =
      (publish_outbox-InOrder w publish r).at _
        ((advance_lifecycle-InOrder w r).at _ ((reconcile_refund-InOrder w r).at db i))
