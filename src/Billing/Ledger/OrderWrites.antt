-- ===== src/Billing/Ledger/OrderWrites.antt =====
-- Writes to `orders` keep the books.
use vpn_platform.Prelude.{
  ℕ, Bool, true, false, exists, String, Option, none, List, [], ◌∷◌, ◌++◌, ◌≡◌, sym, ◌∙◌, ap, ◌⊎◌,
  inl, inr, arith, update_where, find, In, Bool-cases, ==_iff,
}
use vpn_platform.Prelude.Tables.{find-none, exists-false, All-In}
use vpn_platform.Prelude.Tables.Members.{
  update_row, In-append_one, In-append_left, In-update_where, update_where-In,
}
use vpn_platform.Billing.Types.{OrderStatus, created, paid}
use vpn_platform.Billing.Status.{order_open, order_transition}
use vpn_platform.Billing.Schema.{OrderRow, PaymentRow, OutboxRow}
use vpn_platform.Billing.Transaction.{with_status, all_where}
use vpn_platform.Billing.Orders.{open_of, with_order}
use vpn_platform.Billing.Ledger.{Sound, IsCovered}
use vpn_platform.Billing.Ledger.Rows.{all_where-In, stays_paid, opened_before}

abbrev user : OrderRow → String
user o = o.user_id

abbrev id' : OrderRow → String
id' o = o.id

module _ {x : Option String} {orders : List OrderRow} {payments : List PaymentRow}
    {outbox : List OutboxRow} (i : Sound x orders payments outbox) where
  module _ (p : OrderRow → Bool) (s : OrderStatus) (now : ℕ)
      (ok' : all_where p (λ o. order_transition o.status s) orders ≡ true)
      (backed : (o : OrderRow) → In o orders → p o ≡ true → s ≡ paid → IsCovered payments o) where
    abbrev new : OrderRow → OrderRow
    new = update_row p (with_status s now)

    new_id : (o : OrderRow) → (new o).id ≡ o.id
    new_id o = ground arith

    new_user : (o : OrderRow) → (new o).user_id ≡ o.user_id
    new_user o = ground arith

    new_plan : (o : OrderRow) → (new o).plan_id ≡ o.plan_id
    new_plan o = ground arith

    new_amount : (o : OrderRow) → (new o).amount_minor ≡ o.amount_minor
    new_amount o = ground arith

    new_currency : (o : OrderRow) → (new o).currency ≡ o.currency
    new_currency o = ground arith

    new_paid : (o : OrderRow) → In o orders → o.status ≡ paid → (new o).status ≡ paid
    new_paid o m e = ground (arith, stays_paid o.status s, all_where-In p _ orders o ok' m, e)

    new_open :
        (o : OrderRow) → In o orders → order_open (new o).status ≡ true → order_open o.status ≡ true
    new_open o m e = ground (arith, opened_before o.status s, all_where-In p _ orders o ok' m, e)

    paid_before :
        (o : OrderRow) → (new o).status ≡ paid → (o.status ≡ paid) ⊎ ((p o ≡ true) × (s ≡ paid))
    paid_before o e = elim (Bool-cases (p o)) [
      | inl h ↦ inr (h, ground arith)
      | inr h ↦ inl (ground arith)
    ]

    pub update_orders-Sound : Sound x (update_where p (with_status s now) orders) payments outbox
    update_orders-Sound = record {
      unique = i.unique;
      single = i.single;
      named = λ o q mo mq e.
          let (a, ma, ea) = In-update_where p (with_status s now) orders o mo in
          let (b, mb, eb) = In-update_where p (with_status s now) orders q mq in
          let same =
            i.named a b ma mb (sym (new_id a) ∙ (sym (ap id' ea) ∙ (e ∙ (ap id' eb ∙ new_id b)))) in
          ea ∙ (ap new same ∙ sym eb);
      one_open = λ o q mo mq e ho hq.
          let (a, ma, ea) = In-update_where p (with_status s now) orders o mo in
          let (b, mb, eb) = In-update_where p (with_status s now) orders q mq in
          let same =
            i.one_open a b ma mb
              (sym (new_user a) ∙ (sym (ap user ea) ∙ (e ∙ (ap user eb ∙ new_user b))))
              (new_open a ma (rw ea at ho)) (new_open b mb (rw eb at hq)) in
          ea ∙ (ap new same ∙ sym eb);
      priced = λ r m.
          let (o, mo, e1, e2, e3) = i.priced r m in
          (
            new o,
            update_where-In p (with_status s now) orders o mo,
            new_id o ∙ e1,
            new_amount o ∙ e2,
            new_currency o ∙ e3,
          );
      collected = λ r m e h.
          let (o, mo, e1, e2) = i.collected r m e h in
          (
            new o,
            update_where-In p (with_status s now) orders o mo,
            new_id o ∙ e1,
            new_paid o mo e2,
          );
      covered = λ o m e.
          let (a, ma, ea) = In-update_where p (with_status s now) orders o m in
          let (r, mr, e1, e2) = covering a ma (paid_before a (rw ea at e)) in
          (r, mr, e1 ∙ (sym (new_id a) ∙ sym (ap (λ (o : OrderRow). o.id) ea)), e2);
      announced = i.announced;
      truthful = λ e m h.
          let (r, o, t, mr, mo, e1, e2, e3, e4, e5) = i.truthful e m h in
          (
            r,
            new o,
            t,
            mr,
            update_where-In p (with_status s now) orders o mo,
            e1,
            new_id o ∙ e2,
            e3,
            e4,
            rw (new_id o, new_user o, new_plan o) e5,
          );
    }
      where
        covering :
            (a : OrderRow)
            → In a orders
            → (a.status ≡ paid) ⊎ ((p a ≡ true) × (s ≡ paid))
            → IsCovered payments a
        covering a m (inl e) = i.covered a m e
        covering a m (inr (h, k)) = backed a m h k

  -- A new order with an id of its own, of a user without an open one.
  pub insert_order-Sound :
      (n : OrderRow)
      → n.status ≡ created
      → find (open_of n.user_id) orders ≡ none
      → exists (with_order n.id) orders ≡ false
      → Sound x (orders ++ n ∷ []) payments outbox
  insert_order-Sound n unpaid miss other = record {
    unique = i.unique;
    single = i.single;
    named = λ o q mo mq e. elim (In-append_one orders n o mo) [
      | inl a ↦ elim (In-append_one orders n q mq) [
        | inl b ↦ i.named o q a b e
        | inr b ↦ absurd (fresh o a (e ∙ ap id' b))
      ]
      | inr a ↦ elim (In-append_one orders n q mq) [
        | inl b ↦ absurd (fresh q b (sym e ∙ ap id' a))
        | inr b ↦ a ∙ sym b
      ]
    ];
    one_open = λ o q mo mq e ho hq. elim (In-append_one orders n o mo) [
      | inl a ↦ elim (In-append_one orders n q mq) [
        | inl b ↦ i.one_open o q a b e ho hq
        | inr b ↦ absurd (only o a (e ∙ ap user b) ho)
      ]
      | inr a ↦ elim (In-append_one orders n q mq) [
        | inl b ↦ absurd (only q b (sym e ∙ ap user a) hq)
        | inr b ↦ a ∙ sym b
      ]
    ];
    priced = λ r m.
        let (o, mo, e1, e2, e3) = i.priced r m in
        (o, In-append_left orders (n ∷ []) o mo, e1, e2, e3);
    collected = λ r m e h.
        let (o, mo, e1, e2) = i.collected r m e h in
        (o, In-append_left orders (n ∷ []) o mo, e1, e2);
    covered = λ o m e. elim (In-append_one orders n o m) [
      | inl a ↦ i.covered o a e
      | inr a ↦ absurd (ground (arith, a, e, unpaid))
    ];
    announced = i.announced;
    truthful = λ e m h.
        let (r, o, t, mr, mo, e1, e2, e3, e4, e5) = i.truthful e m h in
        (r, o, t, mr, In-append_left orders (n ∷ []) o mo, e1, e2, e3, e4, e5);
  }
    where
      fresh : (o : OrderRow) → In o orders → o.id ≡ n.id → ⊥
      fresh o m e = ground (
        arith,
        All-In _ orders o (exists-false (with_order n.id) orders other) m,
        ==_iff o.id n.id,
      )

      only : (o : OrderRow) → In o orders → o.user_id ≡ n.user_id → order_open o.status ≡ true → ⊥
      only o m e h = ground (
        arith,
        All-In _ orders o (find-none (open_of n.user_id) orders miss) m,
        ==_iff o.user_id n.user_id,
      )
