-- ===== src/Subscription/Refund/Idempotence.antt =====
-- The replay of a refund event.
use vpn_platform.Prelude.{ℕ, ◌≡◌, refl, Bool, true, false, String, Option, none, some, ok}
use vpn_platform.Subscription.Types.{
  EventMeta, RefundSucceeded, Error, not_found, conflict, idempotency_conflict,
  admin_revoke_not_allowed, contract, internal,
}
use vpn_platform.Subscription.Schema
use vpn_platform.Subscription.Schema.{Runtime, Database, PeriodRow, SubscriptionRow}
use vpn_platform.Subscription.Transaction.{Clock, transactions, return}
use vpn_platform.Subscription.Transaction.Keeps.{Keeps, keeps_rules}
use vpn_platform.Store.Ends.{Ends, transact-Ends, Ends-ok}
use vpn_platform.Subscription.Entitlement.{EntitlementState}
use vpn_platform.Subscription.Inbox.Replay.{IsCanonical, insert_inbox-Stored}
use vpn_platform.Subscription.Inbox.Insertion.{Holds, insert_inbox-Ends}
use vpn_platform.Subscription.Inbox.Kept.{
  kept_rules, mark_inbox_processed-Holds, dead_letter_inbox-Holds, insert_outbox-Holds,
  update_subscription-Holds,
}
use vpn_platform.Subscription.Refund.{
  check_refunded, refund_period, settle_refund, refund_paid, refund_known, apply_refund,
  recover_refund, try_refund, finish_refund, store_refund,
}

module _ ⦃rt : Runtime⦄ (m : EventMeta) (a b : String) where
  check_refunded-Holds :
      (p : PeriodRow) (r : RefundSucceeded) → Keeps (Holds m a b) (check_refunded p r)
  unfolding check_refunded
  check_refunded-Holds p r = search kept_rules depth 12

  refund_period-Holds :
      (id : String) (r : RefundSucceeded) → Keeps (Holds m a b) (refund_period id r)
  unfolding refund_period
  refund_period-Holds id r = search kept_rules depth 12

  settle_refund-Holds :
      (n : EventMeta) (r : RefundSucceeded) (p : PeriodRow) (s : SubscriptionRow)
      (x : Option String) (c : Clock) (e : Option EntitlementState)
      → Keeps (Holds m a b) (settle_refund n r p s x c e)
  unfolding settle_refund
  settle_refund-Holds n r p s x c none = search (kept_rules, insert_outbox-Holds) depth 12
  settle_refund-Holds n r p s x c (some e) =
      search (kept_rules, insert_outbox-Holds, update_subscription-Holds) depth 12

  refund_paid-Holds :
      (n : EventMeta) (r : RefundSucceeded) (x : Option String) (c : Clock) (p : PeriodRow)
      (s : SubscriptionRow)
      → Keeps (Holds m a b) (refund_paid n r x c p s)
  unfolding refund_paid
  refund_paid-Holds n r x c p s =
      search (kept_rules, refund_period-Holds, settle_refund-Holds) depth 12

  apply_refund-Holds :
      (n : EventMeta) (r : RefundSucceeded) (x : Option String) (c : Clock)
      → Keeps (Holds m a b) (apply_refund n r x c)
  unfolding apply_refund refund_known
  apply_refund-Holds n r x c = search (kept_rules, refund_paid-Holds, check_refunded-Holds) depth 16

  recover_refund-Holds :
      (id : String) (now : ℕ) (e : Error) → Keeps (Holds m a b) (recover_refund id now e)
  unfolding recover_refund
  recover_refund-Holds id now conflict = search (kept_rules, dead_letter_inbox-Holds) depth 12
  recover_refund-Holds id now not_found = search kept_rules
  recover_refund-Holds id now idempotency_conflict = search kept_rules
  recover_refund-Holds id now admin_revoke_not_allowed = search kept_rules
  recover_refund-Holds id now (contract c) = search kept_rules
  recover_refund-Holds id now (internal c) = search kept_rules

  try_refund-Holds :
      (n : EventMeta) (id : String) (r : RefundSucceeded) (x : Option String) (c : Clock)
      → Keeps (Holds m a b) (try_refund n id r x c)
  unfolding try_refund
  try_refund-Holds n id r x c =
      search (kept_rules, apply_refund-Holds, recover_refund-Holds) depth 12

  finish_refund-Holds :
      (id : String) (now : ℕ) (o : Option Bool)
      → Keeps (Holds m a b) (finish_refund id now (return tt) o)
  unfolding finish_refund
  finish_refund-Holds id now none = search kept_rules
  finish_refund-Holds id now (some true) = search (kept_rules, mark_inbox_processed-Holds)
  finish_refund-Holds id now (some false) = search kept_rules

module _ ⦃rt : Runtime⦄ (meta : EventMeta) (refund : RefundSucceeded) where
  -- A refund that the store has taken is in its inbox.
  store_refund-Ends :
      (a : Option String) (c : Clock) (db : Database)
      → IsCanonical meta refund.payment_id refund.user_id
      → Ends (Holds meta refund.payment_id refund.user_id) (store_refund meta refund a c db)
  unfolding store_refund
  store_refund-Ends a c db k =
      transact-Ends (Holds meta refund.payment_id refund.user_id) _ _ db
        (insert_inbox-Ends meta refund.payment_id refund.user_id (some refund)
          Schema.InboxState.pending c db k)
        (λ inserted. search (keeps_rules, try_refund-Holds, finish_refund-Holds) depth 12)

  -- Once the store has taken a refund event whose identifiers are canonical UUIDs, whether it
  -- applied the refund, keeps it for its payment or dead-lettered it, the same event again, at any
  -- later time and with any new identifiers, is accepted and leaves the database as it is.
  pub store_refund-again :
      (a a2 : Option String) (c c2 : Clock) (db after : Database)
      → IsCanonical meta refund.payment_id refund.user_id
      → store_refund meta refund a c db ≡ (ok tt, after)
      → store_refund meta refund a2 c2 after ≡ (ok tt, after)
  unfolding store_refund transactions Holds
  store_refund-again a a2 c c2 db after k e =
      rw
        (insert_inbox-Stored meta refund.payment_id refund.user_id (some refund)
          Schema.InboxState.pending c2 after
          (Ends-ok (Holds meta refund.payment_id refund.user_id) _ tt after e
            (store_refund-Ends a c db k)))
        refl
