-- ===== src/Subscription/Refund/Revival.antt =====
-- A refund after an administrative revocation.
use vpn_platform.Prelude.{
  ◌≡◌, ◌≢◌, ◌<◌, ◌≤◌, refl, true, false, String, Option, some, ok, find, exists, update_where,
  arith, ltb, leb, ◌&&◌, ◌==◌,
}
use vpn_platform.Prelude.Tables.{find-passes}
use vpn_platform.Prelude.Tables.Members.{find-update_where}
use vpn_platform.Subscription.Types.{EventMeta, RefundSucceeded, revoked}
use vpn_platform.Subscription.Schema.{Runtime, Database, PeriodRow, SubscriptionRow}
use vpn_platform.Subscription.Transaction.{Clock, transactions, maybe, ensure, bind}
use vpn_platform.Subscription.Entitlement.{EntitlementState, calculate_entitlement, is_paid}
use vpn_platform.Subscription.Entitlement.Bounds.{calculate_entitlement-IsLive}
use vpn_platform.Subscription.Outbox.{with_id}
use vpn_platform.Subscription.Payment.{find_paid, update_subscription, updated}
use vpn_platform.Subscription.Refund.{
  same_purchase, with_refund, refunded_row, refund_period, settle_refund, refund_paid, refund_known,
  apply_refund,
}

module _ ⦃rt : Runtime⦄ (meta : EventMeta) (refund : RefundSucceeded) (id : Option String)
    (c : Clock) (p : PeriodRow) (s : SubscriptionRow) where
  -- The database with the period refunded and the status of what is left.
  abbrev pub revived : EntitlementState → Database → Database
  revived e db = record db {
    periods = update_where (λ q. q.id == p.id) (refunded_row refund) db.periods;
    subscriptions =
        update_where (with_id (rt.uuid_text s.id))
          (updated e.status e.start e.end e.grace_end e.next c.now) db.subscriptions;
  }

  refund_paid_revoked :
      (db : Database) (e : EntitlementState)
      → s.status ≡ revoked
      → exists (with_refund (rt.uuid_text refund.refund_id)) db.periods ≡ false
      → calculate_entitlement
          (update_where (λ q. q.id == p.id) (refunded_row refund) db.periods)
          p.subscription_id
          c.now
        ≡ some e
      → e.start < e.end
      → e.end ≤ e.grace_end
      → refund_paid meta refund id c p s db ≡ (ok true, revived e db)
  unfolding refund_paid refund_period settle_refund update_subscription transactions
  refund_paid_revoked db e r fresh left a b =
      let dates : (ltb e.start e.end && leb e.end e.grace_end) ≡ true = ground arith in
      rw (fresh, ensure, bind, left, dates, r) refl

  -- A refund of one paid period of an administratively revoked subscription that has another valid
  -- period succeeds, sends no event, and gives the subscription the status of what is left, which is
  -- not revoked: the revocation is undone. The refund is new, and the dates of what is left are in
  -- order.
  pub apply_refund_revives :
      (db : Database) (e : EntitlementState)
      → find_paid db (rt.uuid_text refund.payment_id) ≡ some (p, s)
      → same_purchase p s refund ≡ true
      → is_paid p.status ≡ true
      → s.status ≡ revoked
      → find (with_id (rt.uuid_text s.id)) db.subscriptions ≡ some s
      → exists (with_refund (rt.uuid_text refund.refund_id)) db.periods ≡ false
      → calculate_entitlement
          (update_where (λ q. q.id == p.id) (refunded_row refund) db.periods)
          p.subscription_id
          c.now
        ≡ some e
      → e.start < e.end
      → e.end ≤ e.grace_end
      → (apply_refund meta refund id c db ≡ (ok true, revived e db))
        × ((r : SubscriptionRow) × (find (with_id (rt.uuid_text s.id)) (revived e db).subscriptions
              ≡ some r)
            × (r.status ≢ revoked))
  unfolding apply_refund refund_known transactions
  apply_refund_revives db e found same unpaid r there fresh left a b =
      let hit : with_id (rt.uuid_text s.id) s ≡ true = (find-passes _ db.subscriptions there).0 in
      let live = calculate_entitlement-IsLive _ _ _ left in
      (
        rw (found, maybe, same, unpaid, refund_paid_revoked db e r fresh left a b) refl,
        (
          _,
          find-update_where (with_id (rt.uuid_text s.id)) (with_id (rt.uuid_text s.id))
              (updated e.status e.start e.end e.grace_end e.next c.now) db.subscriptions (λ q. refl)
              there,
          λ h. live.not_revoked (ground (arith, hit, h)),
        ),
      )
