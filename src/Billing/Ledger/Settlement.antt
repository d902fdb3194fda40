-- ===== src/Billing/Ledger/Settlement.antt =====
-- `ApplyVerifiedPayment` keeps the books: the payment, its order and its event change together.
use vpn_platform.Prelude.{
  ℕ, String, Bool, true, false, Option, none, some, ◌≡◌, ◌≢◌, refl, sym, ap, ◌∙◌, inl, inr, exists,
  update_where, In, ok, err, ==_iff, ==_self, &&-true, if◌then◌else◌, ◌==◌, Bool-cases, subst,
}
use vpn_platform.Prelude.Tables.{exists-In}
use vpn_platform.Prelude.Tables.Members.{update_row, update_where-In, In-append_last}
use vpn_platform.Store.Keeps.{ensure_kept, ensure-Keeps}
use vpn_platform.Store.Ends.{
  Gives, ensure-Gives, chain-Gives, branch-Gives, fetched-Gives, Keeps-Gives, transact_gives,
}
use vpn_platform.Billing.Types.{
  Error, paid, succeeded, PaymentOperation, ProviderPayment, state_conflict,
}
use vpn_platform.Billing.Status.{payment_settled, payment_status_text}
use vpn_platform.Billing.Schema.{Database, OrderRow, PaymentRow, Envelope, payment_succeeded}
use vpn_platform.Billing.Transaction.{
  bind, ◌>>=◌, ◌>>◌, get, put, return, throw, branch, write_outbox, write_orders, write_payments,
  with_status, update_orders, update_payments, random_uuid,
}
use vpn_platform.Billing.Transaction.Keeps.{Keeps, keeps_rules}
use vpn_platform.Billing.Orders.{with_order}
use vpn_platform.Billing.Payments.{with_payment, operation_of}
use vpn_platform.Billing.Verified.{
  succeeded_topic, canceled_topic, envelope, succeeded_data, canceled_data, captured_event,
  canceled_event, build_payment_event, pending_row, succeeded_row, canceled_row, succeed_payment,
  cancel_payment, outbox_row, announces, append_event, insert_outbox, settle_payment,
  apply_verified_payment,
}
use vpn_platform.Billing.Ledger.{Books, IsTrue, IsAnnounced}
use vpn_platform.Billing.Ledger.OrderWrites.{update_orders-Sound}
use vpn_platform.Billing.Ledger.PaymentWrites.{update_payments-Sound}
use vpn_platform.Billing.Ledger.Events.{insert_event-Sound, hold-Sound, release-Sound}
use vpn_platform.Billing.Ledger.Quiet.{IsQuiet, row_rules, update_payments-Books}
use vpn_platform.Billing.Ledger.Reads.{get_payment-elim}

pending_row-IsQuiet : (now : ℕ) → IsQuiet (pending_row now)
pending_row-IsQuiet now = record { identity = λ r. refl; dated = λ r. refl; fresh = λ r h. cc }

canceled_row-IsQuiet : (t now : ℕ) → IsQuiet (canceled_row t now)
canceled_row-IsQuiet t now = record { identity = λ r. refl; dated = λ r. refl; fresh = λ r h. cc }

-- An event that announces no success.
append_event-Books :
    {x : Option String} (e : Envelope) (now : ℕ)
    → e.event_type ≢ succeeded_topic
    → Keeps (Books x) (append_event e now)
unfolding append_event ◌>>=◌ ◌>>◌ bind get put write_outbox
append_event-Books {x} e now other = record {
  at = λ db i.
      ensure_kept (Books x) _ _ _ db i
        (λ t. insert_event-Sound i (outbox_row e now) (λ h. absurd (other h)));
}

insert_outbox-Books :
    {x : Option String} (e : Envelope) (now : ℕ)
    → e.event_type ≢ succeeded_topic
    → Keeps (Books x) (insert_outbox e now)
unfolding insert_outbox
insert_outbox-Books e now other = search (keeps_rules, append_event-Books) depth 12

cancel_payment-Books :
    {x : Option String} (current : PaymentOperation) (t now : ℕ)
    → Keeps (Books x) (cancel_payment current t now)
unfolding cancel_payment
cancel_payment-Books current t now = search (row_rules, canceled_row-IsQuiet) depth 12

-- The books while a payment that has just succeeded, and its order, are being settled.
record Paying (p : PaymentRow) (o : OrderRow) (db : Database) : Type 0 where
  books : Books (some p.id) db
  payment : In p db.payments
  order : In o db.orders

module _ (p : PaymentRow) (o : OrderRow) (mine : o.id ≡ p.order_id) (t now : ℕ) where
  abbrev p' : PaymentRow
  p' = succeeded_row t now p

  abbrev o' : OrderRow
  o' = with_status paid now o

  succeed-Paying :
      (what : String) (db : Database)
      → Books none db
      → In p db.payments
      → In o db.orders
      → payment_settled p.status ≡ false
      → Gives (λ a. Paying p' o) (update_payments what (with_payment p.id) (succeeded_row t now) db)
  unfolding update_payments ◌>>=◌ ◌>>◌ bind get put write_payments
  succeed-Paying what db i mp mo live =
      ensure-Gives (λ a. Paying p' o) _ _ _ db
        (λ checked. record {
          books =
              update_payments-Sound (hold-Sound p.id i) (with_payment p.id) (succeeded_row t now)
                (λ r. refl) checked
                (λ r m h k. absurd (
                  unsettled (
                    sym (
                      ap (λ (r : PaymentRow). r.status)
                        (i.unique r p m mp ((==_iff r.id p.id).0 h)))
                    ∙ k)))
                (λ r m h k. inr ((==_iff p.id r.id).1 (sym ((==_iff r.id p.id).0 h))));
          payment =
              subst (λ r. In r (update_where (with_payment p.id) (succeeded_row t now) db.payments))
                row (update_where-In (with_payment p.id) (succeeded_row t now) db.payments p mp);
          order = mo;
        })
    where
      row : update_row (with_payment p.id) (succeeded_row t now) p ≡ p'
      row = rw (==_self p.id) refl

      unsettled : p.status ≡ succeeded → ⊥
      unsettled k = cc

  pay-Paying :
      (what : String) (db : Database)
      → Paying p' o db
      → Gives (λ a. Paying p' o') (update_orders what (with_order p.order_id) paid now db)
  unfolding update_orders ◌>>=◌ ◌>>◌ bind get put write_orders
  pay-Paying what db i =
      ensure-Gives (λ a. Paying p' o') _ _ _ db
        (λ checked. record {
          books =
              update_orders-Sound i.books (with_order p.order_id) paid now checked
                (λ a m h k. (p', i.payment, sym ((==_iff a.id p.order_id).0 h), refl));
          payment = i.payment;
          order =
              subst
                (λ r. In r (update_where (with_order p.order_id) (with_status paid now) db.orders))
                row
                (update_where-In (with_order p.order_id) (with_status paid now) db.orders o
                  i.order);
        })
    where
      row : update_row (with_order p.order_id) (with_status paid now) o ≡ o'
      row = rw (mine, ==_self p.order_id) refl

  module _ (correlation_id event_id : String) where
    abbrev event : Envelope
    event =
        envelope (operation_of p o) succeeded_topic correlation_id event_id t
          (succeeded_data (operation_of p o) t)

    event-IsTrue :
        (db : Database) → Paying p' o' db → IsTrue db.orders db.payments (outbox_row event now)
    event-IsTrue db i = (
      p',
      o',
      t,
      i.payment,
      i.order,
      refl,
      mine,
      refl,
      refl,
      ap (λ id. payment_succeeded p.id id o.user_id o.plan_id p.amount_minor p.currency t)
          (sym mine),
    )

    settled-Books : (db : Database) → Paying p' o' db → IsAnnounced db.outbox p' → Books none db
    settled-Books db i said = release-Sound p' i.books i.payment (o', i.order, mine, refl) said

    announce-Books :
        (db : Database) → Paying p' o' db → Gives (λ a. Books none) (insert_outbox event now db)
    unfolding insert_outbox append_event ◌>>=◌ ◌>>◌ bind get put return write_outbox
    announce-Books db i =
        branch-Gives (λ a. Books none) (exists (announces succeeded_topic p.id) db.outbox) _ _ db
          (λ h.
            let (e, m, k) = exists-In (announces succeeded_topic p.id) db.outbox h in
            let (u, v) = &&-true _ _ k in
            settled-Books db i
              (e, m, (==_iff e.topic succeeded_topic).0 u, (==_iff e.aggregate_id p.id).0 v))
          (λ h.
            ensure-Gives (λ a. Books none) _ _ _ db
              (λ fresh.
                let j =
                  insert_event-Sound i.books (outbox_row event now) (λ k. event-IsTrue db i) in
                release-Sound p' j i.payment (o', i.order, mine, refl)
                  (
                    outbox_row event now,
                    In-append_last db.outbox (outbox_row event now),
                    refl,
                    refl,
                  )))

-- What `buildPaymentEvent` gives for a success, and for anything else.
success_event :
    (p : PaymentOperation) (actual : ProviderPayment) (c id : String) (e : Envelope)
    → build_payment_event p actual c id ≡ ok e
    → (actual.status == "succeeded") ≡ true
    → (t : ℕ) × (e ≡ envelope p succeeded_topic c id t (succeeded_data p t))
unfolding build_payment_event
success_event p actual c id e h s = captured actual.captured_at (rw s at h)
  where
    captured :
        (o : Option ℕ)
        → captured_event p c id o ≡ ok e
        → (t : ℕ) × (e ≡ envelope p succeeded_topic c id t (succeeded_data p t))
    captured none h = cc
    captured (some t) h = (t, cc)

canceled-ne-succeeded : canceled_topic ≢ succeeded_topic
canceled-ne-succeeded e = different ((==_iff canceled_topic succeeded_topic).1 e)
  where
    different : false ≡ true → ⊥
    different h = cc

other_event :
    (p : PaymentOperation) (actual : ProviderPayment) (c id : String) (e : Envelope)
    → build_payment_event p actual c id ≡ ok e
    → (actual.status == "succeeded") ≡ false
    → e.event_type ≢ succeeded_topic
unfolding build_payment_event
other_event p actual c id e h s = go (actual.status == "canceled") _ actual.canceled_at (rw s at h)
  where
    go :
        (b : Bool) (x : Error) (o : Option ℕ)
        → (if b then canceled_event p c id o else err x) ≡ ok e
        → e.event_type ≢ succeeded_topic
    go false x o h k = cc
    go true x none h k = cc
    go true x (some t) h k =
        let q : envelope p canceled_topic c id t (canceled_data p t) ≡ e = cc in
        canceled-ne-succeeded (ap (λ (v : Envelope). v.event_type) q ∙ k)

module _ (p : PaymentRow) (o : OrderRow) (mine : o.id ≡ p.order_id) (now : ℕ) where
  succeed_payment-Paying :
      (t : ℕ) (db : Database)
      → Books none db
      → In p db.payments
      → In o db.orders
      → payment_settled p.status ≡ false
      → Gives
          (λ a. Paying (succeeded_row t now p) (with_status paid now o))
          (succeed_payment (operation_of p o) t now db)
  unfolding succeed_payment ◌>>◌ ◌>>=◌
  succeed_payment-Paying t db i mp mo live =
      chain-Gives _ (λ a. Paying (succeeded_row t now p) o) _ _
        (succeed-Paying p o mine t now "succeed payment" db i mp mo live)
        (λ a db j. pay-Paying p o mine t now "pay order" db j)

  cancellation-Books :
      (e : Envelope) (t : ℕ)
      → e.event_type ≢ succeeded_topic
      → Keeps (Books none) (cancel_payment (operation_of p o) t now >> insert_outbox e now)
  cancellation-Books e t other =
      search (keeps_rules, cancel_payment-Books, insert_outbox-Books) depth 12

  settle_payment-Books :
      (actual : ProviderPayment) (c : String) (uuid : Option String) (db : Database)
      → Books none db
      → In p db.payments
      → In o db.orders
      → payment_settled p.status ≡ false
      → Gives (λ a. Books none) (settle_payment (operation_of p o) actual c uuid now db)
  unfolding settle_payment random_uuid return throw ◌>>◌ ◌>>=◌ bind branch
  settle_payment-Books actual c none db i mp mo live = tt
  settle_payment-Books actual c (some id) db i mp mo live =
      fetched-Gives _ (build_payment_event (operation_of p o) actual c id) _ db (λ e h.
        elim (Bool-cases (actual.status == "succeeded")) [
          | inl s ↦
              let (t, q) = success_event (operation_of p o) actual c id e h s in
              rw (s, q)
                (chain-Gives _ (λ a. Paying (succeeded_row t now p) (with_status paid now o)) _ _
                  (succeed_payment-Paying t db i mp mo live)
                  (λ a db j. announce-Books p o mine t now c id db j))
          | inr s ↦
              let other = other_event (operation_of p o) actual c id e h s in
              rw s (Keeps-Gives _ db (cancellation-Books e e.occurred_at other) i)
        ])

pub apply_verified_payment-Books :
    (expected : PaymentOperation) (actual : ProviderPayment) (c : String) (uuid : Option String)
    (now : ℕ)
    → Keeps (Books none) (apply_verified_payment expected actual c uuid now)
unfolding apply_verified_payment ◌>>=◌
apply_verified_payment-Books expected actual c uuid now = record {
  at = λ db i. transact_gives (Books none) _ db i (
      get_payment-elim (Gives (λ a. Books none)) db (with_payment expected.payment.payment_id) _ tt
        (λ p o mp h mo mine.
          branch-Gives _ (payment_settled p.status) _ _ db
            (λ settled.
              Keeps-Gives (Books none) db
                (ensure-Keeps (payment_status_text p.status == actual.status) state_conflict) i)
            (λ live.
              branch-Gives _ (actual.status == "pending") _ _ db
                (λ waits.
                  Keeps-Gives (Books none) db (update_payments-Books _ _ (pending_row-IsQuiet now))
                    i)
                (λ done. settle_payment-Books p o mine now actual c uuid db i mp mo live))));
}
