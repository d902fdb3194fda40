-- ===== src/Billing/Verified/Late.antt =====
-- A success that the provider reports of a payment that the service has given up.
use vpn_platform.Prelude.{
  ℕ, String, true, false, not, some, ◌≡◌, refl, err, find, ◌&&◌, ◌==◌, ==_self, arith,
}
use vpn_platform.Prelude.Tables.{find-passes, exists_of_In}
use vpn_platform.Billing.Types.{
  internal, PaymentOperation, ProviderPayment, PaymentStatus, failed, succeeded,
}
use vpn_platform.Billing.Status.{payment_settled, payment_transition}
use vpn_platform.Billing.Schema.{Database, OrderRow, PaymentRow}
use vpn_platform.Billing.Transaction.{transactions, all_where, payment_trigger}
use vpn_platform.Billing.Orders.{with_order}
use vpn_platform.Billing.Payments.{with_payment, get_payment, join_order}
use vpn_platform.Billing.Verified.{
  succeeded_row, build_payment_event, succeed_payment, settle_payment, apply_verified_payment,
}

not_settled : (s : PaymentStatus) → s ≡ failed → payment_settled s ≡ false
not_settled s e = rw e refl

no_transition : (s : PaymentStatus) → s ≡ failed → payment_transition s succeeded ≡ false
no_transition s e = rw e refl

refused :
    (db : Database) (p : PaymentRow) (id : String) (t now : ℕ)
    → find (with_payment id) db.payments ≡ some p
    → p.status ≡ failed
    → all_where (with_payment p.id) (payment_trigger (succeeded_row t now)) db.payments ≡ false
refused db p id t now found e =
    let (h, m) = find-passes (with_payment id) db.payments found in
    let hit =
      exists_of_In (λ r. with_payment p.id r && not (payment_trigger (succeeded_row t now) r))
        db.payments p m (ground (arith, ==_self p.id, no_transition p.status e)) in
    ground arith

-- When the provider reports, with its instant, the success of a payment that is marked failed (its
-- creation window had passed, or an answer had not matched), ApplyVerifiedPayment ends in the error of
-- the trigger, which is not a state conflict, and leaves the database as it was.
pub apply_verified_payment-after_failure :
    (expected : PaymentOperation) (actual : ProviderPayment) (c event_id : String) (t now : ℕ)
    (db : Database) (p : PaymentRow) (o : OrderRow)
    → find (with_payment expected.payment.payment_id) db.payments ≡ some p
    → find (with_order p.order_id) db.orders ≡ some o
    → p.status ≡ failed
    → actual.status ≡ "succeeded"
    → actual.captured_at ≡ some t
    → apply_verified_payment expected actual c (some event_id) now db
      ≡ (err (internal "succeed payment"), db)
unfolding apply_verified_payment get_payment join_order settle_payment build_payment_event
    succeed_payment transactions
apply_verified_payment-after_failure expected actual c event_id t now db p o found joined e s at' =
    let terminal : (actual.status == "pending") ≡ false = rw s refl in
    let success : (actual.status == "succeeded") ≡ true = rw s refl in
    rw
      (
        found,
        joined,
        not_settled p.status e,
        terminal,
        success,
        at',
        refused db p expected.payment.payment_id t now found e,
      )
      refl
