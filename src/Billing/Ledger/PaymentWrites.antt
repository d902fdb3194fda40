-- ===== src/Billing/Ledger/PaymentWrites.antt =====
-- Writes to `payments` keep the books.
use vpn_platform.Prelude.{
  Bool, true, false, String, Option, List, [], ◌∷◌, ◌++◌, ◌≡◌, sym, ◌∙◌, ap, ◌⊎◌, inl, inr, arith,
  update_where, exists, In, Bool-cases, ==_iff,
}
use vpn_platform.Prelude.Int.{ℤ}
use vpn_platform.Prelude.Tables.{exists-false, All-In}
use vpn_platform.Prelude.Tables.Members.{
  update_row, In-append_one, In-append_left, In-update_where, update_where-In,
}
use vpn_platform.Billing.Types.{created, succeeded}
use vpn_platform.Billing.Schema.{OrderRow, PaymentRow, OutboxRow}
use vpn_platform.Billing.Transaction.{payment_trigger, all_where}
use vpn_platform.Billing.Payments.{clashes}
use vpn_platform.Billing.Ledger.{Sound, IsPriced, held}
use vpn_platform.Billing.Ledger.Rows.{all_where-In, stays_succeeded}

-- What `enforce_payment_invariants` calls the identity and the financial fields.
abbrev pub identity_of : PaymentRow → String × String × ℤ × String
identity_of r = (r.id, r.order_id, r.amount_minor, r.currency)

module _ {x : Option String} {orders : List OrderRow} {payments : List PaymentRow}
    {outbox : List OutboxRow} (i : Sound x orders payments outbox) where
  module _ (p : PaymentRow → Bool) (f : PaymentRow → PaymentRow)
      (k : (r : PaymentRow) → identity_of (f r) ≡ identity_of r)
      (ok' : all_where p (payment_trigger f) payments ≡ true)
      (dated : (r : PaymentRow)
        → In r payments
        → p r ≡ true
        → r.status ≡ succeeded
        → (f r).paid_at ≡ r.paid_at)
      (fresh : (r : PaymentRow)
        → In r payments
        → p r ≡ true
        → (f r).status ≡ succeeded
        → (r.status ≡ succeeded) ⊎ (held x r.id ≡ true)) where
    abbrev new : PaymentRow → PaymentRow
    new = update_row p f

    new_id : (r : PaymentRow) → (new r).id ≡ r.id
    new_id r = ground (arith, ap (λ t. t.0) (k r))

    new_order : (r : PaymentRow) → (new r).order_id ≡ r.order_id
    new_order r = ground (arith, ap (λ t. t.1) (k r))

    new_amount : (r : PaymentRow) → (new r).amount_minor ≡ r.amount_minor
    new_amount r = ground (arith, ap (λ t. t.2) (k r))

    new_currency : (r : PaymentRow) → (new r).currency ≡ r.currency
    new_currency r = ground (arith, ap (λ t. t.3) (k r))

    new_succeeded :
        (r : PaymentRow) → In r payments → r.status ≡ succeeded → (new r).status ≡ succeeded
    new_succeeded r m e =
        ground (arith, stays_succeeded r.status (f r).status, all_where-In p _ payments r ok' m, e)

    new_date : (r : PaymentRow) → In r payments → r.status ≡ succeeded → (new r).paid_at ≡ r.paid_at
    new_date r m e = ground (arith, dated r m, e)

    succeeded_before :
        (r : PaymentRow)
        → In r payments
        → (new r).status ≡ succeeded
        → held x r.id ≡ false
        → r.status ≡ succeeded
    succeeded_before r m e h = elim (Bool-cases (p r)) [
      | inl t ↦ ground (arith, fresh r m t (ground arith), h)
      | inr t ↦ ground arith
    ]

    pub update_payments-Sound : Sound x orders (update_where p f payments) outbox
    update_payments-Sound = record {
      unique = λ r q mr mq e.
          let (a, ma, ea) = In-update_where p f payments r mr in
          let (b, mb, eb) = In-update_where p f payments q mq in
          let same =
            i.unique a b ma mb
              (sym (new_id a) ∙ (sym (ap id' ea) ∙ (e ∙ (ap id' eb ∙ new_id b)))) in
          ea ∙ (ap new same ∙ sym eb);
      single = λ r q mr mq e.
          let (a, ma, ea) = In-update_where p f payments r mr in
          let (b, mb, eb) = In-update_where p f payments q mq in
          let same =
            i.single a b ma mb
              (sym (new_order a) ∙ (sym (ap order' ea) ∙ (e ∙ (ap order' eb ∙ new_order b)))) in
          ea ∙ (ap new same ∙ sym eb);
      named = i.named;
      one_open = i.one_open;
      priced = λ r m.
          let (a, ma, ea) = In-update_where p f payments r m in
          let (o, mo, e1, e2, e3) = i.priced a ma in
          (
            o,
            mo,
            e1 ∙ sym (ap order' ea ∙ new_order a),
            e2 ∙ sym (ap (λ (r : PaymentRow). r.amount_minor) ea ∙ new_amount a),
            e3 ∙ sym (ap (λ (r : PaymentRow). r.currency) ea ∙ new_currency a),
          );
      collected = λ r m e h.
          let (a, ma, ea) = In-update_where p f payments r m in
          let same = ap id' ea ∙ new_id a in
          let t = rw same at h in
          let (o, mo, e1, e2) = i.collected a ma (succeeded_before a ma (rw ea at e) t) t in
          (o, mo, e1 ∙ sym (ap order' ea ∙ new_order a), e2);
      covered = λ o m e.
          let (a, ma, e1, e2) = i.covered o m e in
          (new a, update_where-In p f payments a ma, new_order a ∙ e1, new_succeeded a ma e2);
      announced = λ r m e h.
          let (a, ma, ea) = In-update_where p f payments r m in
          let same = ap id' ea ∙ new_id a in
          let t = rw same at h in
          let (v, mv, e1, e2) = i.announced a ma (succeeded_before a ma (rw ea at e) t) t in
          (v, mv, e1, e2 ∙ sym same);
      truthful = λ e m h.
          let (r, o, t, mr, mo, e1, e2, e3, e4, e5) = i.truthful e m h in
          (
            new r,
            o,
            t,
            update_where-In p f payments r mr,
            mo,
            new_id r ∙ e1,
            e2 ∙ sym (new_order r),
            new_succeeded r mr e3,
            new_date r mr e3 ∙ e4,
            rw (new_id r, new_amount r, new_currency r) e5,
          );
    }
      where
        id' : PaymentRow → String
        id' r = r.id

        order' : PaymentRow → String
        order' r = r.order_id

  -- A new payment with an id of its own and the amount of its order, which has no other payment.
  pub insert_payment-Sound :
      (n : PaymentRow)
      → n.status ≡ created
      → exists (clashes n) payments ≡ false
      → IsPriced orders n
      → Sound x orders (payments ++ n ∷ []) outbox
  insert_payment-Sound n unpaid miss price = record {
    unique = λ r q mr mq e. elim (In-append_one payments n r mr) [
      | inl a ↦ elim (In-append_one payments n q mq) [
        | inl b ↦ i.unique r q a b e
        | inr b ↦ absurd (only r a (e ∙ ap (λ (r : PaymentRow). r.id) b))
      ]
      | inr a ↦ elim (In-append_one payments n q mq) [
        | inl b ↦ absurd (only q b (sym e ∙ ap (λ (r : PaymentRow). r.id) a))
        | inr b ↦ a ∙ sym b
      ]
    ];
    single = λ r q mr mq e. elim (In-append_one payments n r mr) [
      | inl a ↦ elim (In-append_one payments n q mq) [
        | inl b ↦ i.single r q a b e
        | inr b ↦ absurd (alone r a (e ∙ ap (λ (r : PaymentRow). r.order_id) b))
      ]
      | inr a ↦ elim (In-append_one payments n q mq) [
        | inl b ↦ absurd (alone q b (sym e ∙ ap (λ (r : PaymentRow). r.order_id) a))
        | inr b ↦ a ∙ sym b
      ]
    ];
    named = i.named;
    one_open = i.one_open;
    priced =
        λ r m. elim (In-append_one payments n r m) [ inl a ↦ i.priced r a | inr a ↦ rw a price ];
    collected = λ r m e h. elim (In-append_one payments n r m) [
      | inl a ↦ i.collected r a e h
      | inr a ↦ absurd (ground (arith, a, e, unpaid))
    ];
    covered = λ o m e.
        let (r, mr, e1, e2) = i.covered o m e in (r, In-append_left payments (n ∷ []) r mr, e1, e2);
    announced = λ r m e h. elim (In-append_one payments n r m) [
      | inl a ↦ i.announced r a e h
      | inr a ↦ absurd (ground (arith, a, e, unpaid))
    ];
    truthful = λ e m h.
        let (r, o, t, mr, mo, e1, e2, e3, e4, e5) = i.truthful e m h in
        (r, o, t, In-append_left payments (n ∷ []) r mr, mo, e1, e2, e3, e4, e5);
  }
    where
      alone : (r : PaymentRow) → In r payments → r.order_id ≡ n.order_id → ⊥
      alone r m e = ground (
        arith,
        All-In _ payments r (exists-false (clashes n) payments miss) m,
        ==_iff r.order_id n.order_id,
      )

      only : (r : PaymentRow) → In r payments → r.id ≡ n.id → ⊥
      only r m e =
          ground (
            arith,
            All-In _ payments r (exists-false (clashes n) payments miss) m,
            ==_iff r.id n.id,
          )
