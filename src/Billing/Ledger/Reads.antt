-- ===== src/Billing/Ledger/Reads.antt =====
-- What a read of an order or of a payment gives: rows of the tables.
use vpn_platform.Prelude.{
  String, Bool, true, some, ◌≡◌, In, inl, inr, find, Option-cases, Result, err, ==_iff, &&-true,
}
use vpn_platform.Prelude.Tables.{find-passes}
use vpn_platform.Billing.Types.{Error, not_found, Order, PaymentOperation}
use vpn_platform.Billing.Schema.{Database, OrderRow, PaymentRow}
use vpn_platform.Billing.Transaction.{Tx, transactions, bind}
use vpn_platform.Billing.Orders.{get_order, order_of, owned, with_order}
use vpn_platform.Billing.Payments.{get_payment, join_order, operation_of}

module _ {B : Type 0} (P : Result Error B × Database → Type 0) (db : Database) where
  pub get_order-elim :
      (user_id order_id : String) (k : Order → Tx B)
      → P (err not_found, db)
      → ((o : OrderRow) → In o db.orders → o.id ≡ order_id → P (k (order_of o) db))
      → P (bind (get_order user_id order_id db) k)
  unfolding get_order transactions
  get_order-elim user_id order_id k miss hit =
      elim (Option-cases (find (owned user_id order_id) db.orders)) [
        | inl e ↦ rw e miss
        | inr (o, e) ↦
            let (t, m) = find-passes (owned user_id order_id) db.orders e in
            let (u, v) = &&-true _ _ t in rw e (hit o m ((==_iff o.id order_id).0 v))
      ]

  pub get_payment-found :
      (condition : PaymentRow → Bool) (k : PaymentOperation → Tx B)
      → P (err not_found, db)
      → ((p : PaymentRow) (o : OrderRow)
          → find condition db.payments ≡ some p
          → find (with_order p.order_id) db.orders ≡ some o
          → P (k (operation_of p o) db))
      → P (bind (get_payment condition db) k)
  unfolding get_payment join_order transactions
  get_payment-found condition k miss hit = elim (Option-cases (find condition db.payments)) [
    | inl e ↦ rw e miss
    | inr (p, e) ↦ elim (Option-cases (find (with_order p.order_id) db.orders)) [
      | inl e2 ↦ rw (e, e2) miss
      | inr (o, e2) ↦ rw (e, e2) (hit p o e e2)
    ]
  ]

  pub get_payment-elim :
      (condition : PaymentRow → Bool) (k : PaymentOperation → Tx B)
      → P (err not_found, db)
      → ((p : PaymentRow) (o : OrderRow)
          → In p db.payments
          → condition p ≡ true
          → In o db.orders
          → o.id ≡ p.order_id
          → P (k (operation_of p o) db))
      → P (bind (get_payment condition db) k)
  get_payment-elim condition k miss hit = get_payment-found condition k miss (λ p o e e2.
      let (t, m) = find-passes condition db.payments e in
      let (u, n) = find-passes (with_order p.order_id) db.orders e2 in
      hit p o m t n ((==_iff o.id p.order_id).0 u))
