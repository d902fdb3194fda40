-- ===== src/Subscription/Payment/Idempotence.antt =====
-- The replay of a payment event.
use vpn_platform.Prelude.{◌≡◌, refl, String, ok, Option, none}
use vpn_platform.Subscription.Types.{EventMeta, PaymentSucceeded, Order}
use vpn_platform.Subscription.Schema.{Runtime, Database, processing}
use vpn_platform.Subscription.Transaction.{Clock, transactions}
use vpn_platform.Subscription.Transaction.Keeps.{keeps_rules}
use vpn_platform.Store.Ends.{Ends, transact-Ends, Ends-ok}
use vpn_platform.Subscription.Inbox.Replay.{IsCanonical, insert_inbox-Stored}
use vpn_platform.Subscription.Inbox.Insertion.{Holds, insert_inbox-Ends}
use vpn_platform.Subscription.Inbox.Kept.{apply_known-Holds, apply_new-Holds}
use vpn_platform.Subscription.Payment.{apply_payment}

module _ ⦃rt : Runtime⦄ (meta : EventMeta) (payment : PaymentSucceeded) where
  -- A payment that the store has applied is in its inbox.
  pub apply_payment-Ends :
      (order : Order) (a b d : Option String) (c : Clock) (db : Database)
      → IsCanonical meta payment.payment_id payment.user_id
      → Ends
          (Holds meta payment.payment_id payment.user_id)
          (apply_payment meta payment order a b d c db)
  unfolding apply_payment
  apply_payment-Ends order a b d c db k =
      transact-Ends (Holds meta payment.payment_id payment.user_id) _ _ db
        (insert_inbox-Ends meta payment.payment_id payment.user_id none processing c db k)
        (λ inserted. search (keeps_rules, apply_known-Holds, apply_new-Holds) depth 12)

  -- Once the store has applied a payment event whose identifiers are canonical UUIDs, it accepts
  -- the same event again, at any later time and with any order and any new identifiers, and leaves
  -- the database as it is.
  pub apply_payment-again :
      (order order2 : Order) (a b d a2 b2 d2 : Option String) (c c2 : Clock) (db after : Database)
      → IsCanonical meta payment.payment_id payment.user_id
      → apply_payment meta payment order a b d c db ≡ (ok tt, after)
      → apply_payment meta payment order2 a2 b2 d2 c2 after ≡ (ok tt, after)
  unfolding apply_payment transactions Holds
  apply_payment-again order order2 a b d a2 b2 d2 c c2 db after k e =
      rw
        (insert_inbox-Stored meta payment.payment_id payment.user_id none processing c2 after (
          Ends-ok (Holds meta payment.payment_id payment.user_id) _ tt after e
            (apply_payment-Ends order a b d c db k)))
        refl
