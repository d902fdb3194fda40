-- ===== src/Billing/Verified/Again.antt =====
-- A payment is settled once.
use vpn_platform.Prelude.{
  ℕ, String, Bool, true, false, Option, none, some, List, ◌≡◌, refl, sym, ap, ◌∙◌, ok, err, arith,
  find, update_where, ◌==◌, ==_iff, ==_self, if◌then◌else◌, Result,
}
use vpn_platform.Prelude.Tables.Members.{find-update_where, update_row}
use vpn_platform.Store.Keeps.{put-Keeps}
use vpn_platform.Store.Ends.{
  Gives, Gives-ok, ensure-Gives, chain-Gives, branch-Gives, fetched-Gives, check-Gives,
  settle-Gives, Keeps-Gives,
}
use vpn_platform.Billing.Types.{
  Error, OrderStatus, paid, canceled, PaymentOperation, ProviderPayment, state_conflict,
}
use vpn_platform.Billing.Status.{payment_settled, payment_status_text}
use vpn_platform.Billing.Schema.{Database, OrderRow, PaymentRow, OutboxRow, Envelope}
use vpn_platform.Billing.Transaction.{
  bind, ◌>>=◌, ◌>>◌, get, put, return, throw, transact, transactions, random_uuid, write_orders,
  write_payments, write_outbox, update_orders, update_payments, with_status,
}
use vpn_platform.Billing.Transaction.Keeps.{Keeps, keeps_rules}
use vpn_platform.Billing.Orders.{with_order}
use vpn_platform.Billing.Payments.{with_payment, operation_of, get_payment, join_order}
use vpn_platform.Billing.Verified.{
  build_payment_event, succeeded_row, canceled_row, succeed_payment, cancel_payment, append_event,
  insert_outbox, settle_payment, apply_verified_payment,
}
use vpn_platform.Billing.Ledger.Reads.{get_payment-found}

-- The payment `id` has reached the status `s`.
record Reached (id s : String) (db : Database) : Type 0 where
  row : PaymentRow
  order : OrderRow
  found : find (with_payment id) db.payments ≡ some row
  joined : find (with_order row.order_id) db.orders ≡ some order
  terminal : payment_settled row.status ≡ true
  same : (payment_status_text row.status == s) ≡ true

module _ (id s : String) where
  write_outbox-Reached :
      (f : List OutboxRow → List OutboxRow) → Keeps (Reached id s) (write_outbox f)
  unfolding write_outbox
  write_outbox-Reached f = put-Keeps _ (λ db i. record {
    row = i.row;
    order = i.order;
    found = i.found;
    joined = i.joined;
    terminal = i.terminal;
    same = i.same;
  })

  insert_outbox-Reached : (e : Envelope) (now : ℕ) → Keeps (Reached id s) (insert_outbox e now)
  unfolding insert_outbox append_event
  insert_outbox-Reached e now = search (keeps_rules, write_outbox-Reached) depth 12

  module _ (p : PaymentRow) (o : OrderRow) (f : PaymentRow → PaymentRow) (status : OrderStatus)
      (same_id : (r : PaymentRow) → (f r).id ≡ r.id)
      (same_order : (f p).order_id ≡ p.order_id) where
    update_payments-found :
        (what : String) (db : Database)
        → find (with_payment id) db.payments ≡ some p
        → find (with_order p.order_id) db.orders ≡ some o
        → Gives
            (λ a d.
              (find (with_payment id) d.payments ≡ some (f p))
              × (find (with_order p.order_id) d.orders ≡ some o))
            (update_payments what (with_payment p.id) f db)
    unfolding update_payments ◌>>=◌ ◌>>◌ bind get put write_payments
    update_payments-found what db h k = ensure-Gives _ _ _ _ db (λ checked. (
      find-update_where (with_payment id) (with_payment p.id) f db.payments {r = p}
            (λ r. ap (λ x. x == id) (same_id r)) h
          ∙ ap some changed,
      k,
    ))
      where
        changed : update_row (with_payment p.id) f p ≡ f p
        changed = rw (==_self p.id) refl

    update_orders-Reached :
        (what : String) (now : ℕ) (db : Database)
        → payment_settled (f p).status ≡ true
        → (payment_status_text (f p).status == s) ≡ true
        → find (with_payment id) db.payments ≡ some (f p)
        → find (with_order p.order_id) db.orders ≡ some o
        → Gives (λ a. Reached id s) (update_orders what (with_order p.order_id) status now db)
    unfolding update_orders ◌>>=◌ ◌>>◌ bind get put write_orders
    update_orders-Reached what now db t e h k = ensure-Gives _ _ _ _ db (λ checked. record {
      row = f p;
      order = update_row (with_order p.order_id) (with_status status now) o;
      found = h;
      joined =
          ap
            (λ x.
              find (with_order x)
                (update_where (with_order p.order_id) (with_status status now) db.orders))
            same_order
          ∙ find-update_where (with_order p.order_id) (with_order p.order_id)
              (with_status status now) db.orders {r = o} (λ r. refl) k;
      terminal = t;
      same = e;
    })

-- An event that is not of a success is of a cancellation.
cancellation :
    (p : PaymentOperation) (actual : ProviderPayment) (c id : String) (e : Envelope)
    → build_payment_event p actual c id ≡ ok e
    → (actual.status == "succeeded") ≡ false
    → (actual.status == "canceled") ≡ true
unfolding build_payment_event
cancellation p actual c id e h s = go (actual.status == "canceled") _ _ (rw s at h)
  where
    go :
        (b : Bool) (x : Error) (r : Result Error Envelope)
        → (if b then r else err x) ≡ ok e
        → b ≡ true
    go true x r h = refl
    go false x r h = cc

text_sym : (a b : String) → (a == b) ≡ true → (b == a) ≡ true
text_sym a b h = (==_iff b a).1 (sym ((==_iff a b).0 h))

module _ (id : String) (actual : ProviderPayment) (now : ℕ) (p : PaymentRow) (o : OrderRow)
    (db : Database) (found : find (with_payment id) db.payments ≡ some p)
    (joined : find (with_order p.order_id) db.orders ≡ some o) where
  succeed_payment-Reached :
      (t : ℕ)
      → (actual.status == "succeeded") ≡ true
      → Gives (λ a. Reached id actual.status) (succeed_payment (operation_of p o) t now db)
  unfolding succeed_payment ◌>>=◌ ◌>>◌
  succeed_payment-Reached t s =
      chain-Gives _ _ _ _
        (update_payments-found id actual.status p o (succeeded_row t now) paid (λ r. refl) refl
          "succeed payment" db found joined)
        (λ a d q.
          update_orders-Reached id actual.status p o (succeeded_row t now) paid (λ r. refl) refl
            "pay order" now d refl (text_sym actual.status "succeeded" s) q.0 q.1)

  cancel_payment-Reached :
      (t : ℕ)
      → (actual.status == "canceled") ≡ true
      → Gives (λ a. Reached id actual.status) (cancel_payment (operation_of p o) t now db)
  unfolding cancel_payment ◌>>=◌ ◌>>◌
  cancel_payment-Reached t s =
      chain-Gives _ _ _ _
        (update_payments-found id actual.status p o (canceled_row t now) canceled (λ r. refl) refl
          "cancel payment" db found joined)
        (λ a d q.
          update_orders-Reached id actual.status p o (canceled_row t now) canceled (λ r. refl) refl
            "cancel order" now d refl (text_sym actual.status "canceled" s) q.0 q.1)

  settle_payment-Reached :
      (c : String) (uuid : Option String)
      → Gives
          (λ a. Reached id actual.status)
          (settle_payment (operation_of p o) actual c uuid now db)
  unfolding settle_payment random_uuid return throw ◌>>◌ ◌>>=◌ bind
  settle_payment-Reached c none = tt
  settle_payment-Reached c (some event_id) =
      fetched-Gives _ (build_payment_event (operation_of p o) actual c event_id) _ db (λ e h.
        chain-Gives _ (λ a. Reached id actual.status) _ _
          (branch-Gives _ (actual.status == "succeeded") _ _ db
            (succeed_payment-Reached e.occurred_at)
            (λ s.
              cancel_payment-Reached e.occurred_at
                (cancellation (operation_of p o) actual c event_id e h s)))
          (λ a d q.
            Keeps-Gives (Reached id actual.status) d (insert_outbox-Reached id actual.status e now)
              q))

module _ (expected : PaymentOperation) (actual : ProviderPayment) where
  abbrev IsSettled : Database → Type 0
  IsSettled = Reached expected.payment.payment_id actual.status

  apply_verified_payment-Reached :
      (c : String) (uuid : Option String) (now : ℕ) (db : Database)
      → (actual.status == "pending") ≡ false
      → Gives (λ a. IsSettled) (apply_verified_payment expected actual c uuid now db)
  unfolding apply_verified_payment transact ◌>>=◌
  apply_verified_payment-Reached c uuid now db final = settle-Gives _ db _ (
      get_payment-found (Gives (λ a. IsSettled)) db (with_payment expected.payment.payment_id) _ tt
        (λ p o found joined.
          branch-Gives _ (payment_settled p.status) _ _ db
            (λ t.
              check-Gives IsSettled (payment_status_text p.status == actual.status) state_conflict
                db
                (λ same. record {
                  row = p;
                  order = o;
                  found = found;
                  joined = joined;
                  terminal = t;
                  same = same;
                }))
            (λ live.
              branch-Gives _ (actual.status == "pending") _ _ db (λ waits. absurd (ground arith))
                (λ done.
                  settle_payment-Reached expected.payment.payment_id actual now p o db found joined
                    c uuid))))

  -- Once a success or a cancellation that the provider reports of a payment has been applied, the same
  -- report, at any later time and with any new identifiers, is accepted and leaves the database as it
  -- is: no second event is written.
  pub apply_verified_payment-again :
      (c c2 : String) (uuid uuid2 : Option String) (now now2 : ℕ) (db after : Database)
      → (actual.status == "pending") ≡ false
      → apply_verified_payment expected actual c uuid now db ≡ (ok tt, after)
      → apply_verified_payment expected actual c2 uuid2 now2 after ≡ (ok tt, after)
  unfolding apply_verified_payment get_payment join_order transactions
  apply_verified_payment-again c c2 uuid uuid2 now now2 db after final e =
      again (
        Gives-ok (λ a. IsSettled) _ tt after e (apply_verified_payment-Reached c uuid now db final))
    where
      again :
          IsSettled after
          → apply_verified_payment expected actual c2 uuid2 now2 after ≡ (ok tt, after)
      again q = rw (q.found, q.joined, q.terminal, q.same) refl
