-- ===== src/Billing/Ledger/Operations.antt =====
-- Every operation of the billing store keeps the books.
use vpn_platform.Prelude.{ℕ, String, Bool, Option, none, ◌≡◌, refl, arith, find}
use vpn_platform.Prelude.Int.{ℤ}
use vpn_platform.Store.Keeps.{ensure_kept, maybe_kept, bind_kept}
use vpn_platform.Billing.Types.{CreateOrderInput, CreatePaymentInput, Order, created}
use vpn_platform.Billing.Schema.{Database, OrderRow, PaymentRow, IdempotencyRow, Operation}
use vpn_platform.Billing.Transaction.{
  bind, ◌>>=◌, ◌>>◌, get, put, return, write_orders, write_payments,
}
use vpn_platform.Billing.Transaction.Keeps.{Keeps, keeps_rules}
use vpn_platform.Billing.Orders.{
  get_order, order_of, order_row, lookup_idempotency, store_idempotency, insert_order, reuse_order,
  place_order, finish_order, replay_order, create_order, find_order_replay, open_of,
}
use vpn_platform.Billing.Payments.{
  NewPayment, get_payment, find_payment_replay, insert_payment, place_payment, payment_for,
  begin_payment, existing_payment, create_payment, for_order,
}
use vpn_platform.Billing.Ledger.{Books, IsPriced}
use vpn_platform.Billing.Ledger.OrderWrites.{insert_order-Sound}
use vpn_platform.Billing.Ledger.PaymentWrites.{insert_payment-Sound}
use vpn_platform.Billing.Ledger.Quiet.{row_rules, update_orders-Books}
use vpn_platform.Billing.Ledger.Reads.{get_order-elim}

abbrev I : Database → Type 0
I = Books none

pub get_order-Books : (user_id order_id : String) → Keeps I (get_order user_id order_id)
unfolding get_order
get_order-Books user_id order_id = search keeps_rules depth 12

pub get_payment-Books : (condition : PaymentRow → Bool) → Keeps I (get_payment condition)
unfolding get_payment
get_payment-Books condition = search keeps_rules depth 12

pub lookup_idempotency-Books :
    (subject : String) (op : Operation) (key hash : String)
    → Keeps I (lookup_idempotency subject op key hash)
unfolding lookup_idempotency
lookup_idempotency-Books subject op key hash = search keeps_rules depth 12

pub store_idempotency-Books :
    (what : String) (row : IdempotencyRow) → Keeps I (store_idempotency what row)
unfolding store_idempotency
store_idempotency-Books what row = search row_rules depth 12

pub ruleset read_rules = (
  row_rules, get_order-Books, get_payment-Books, lookup_idempotency-Books, store_idempotency-Books,
)

-- Orders.

insert_order_books :
    (input : CreateOrderInput) (id : String) (now : ℕ) (db : Database)
    → I db
    → find (open_of input.user_id) db.orders ≡ none
    → I (insert_order (order_row input id now) db).1
unfolding insert_order ◌>>=◌ ◌>>◌ bind get put return write_orders
insert_order_books input id now db i miss =
    ensure_kept I _ _ _ db i
      (λ e. insert_order-Sound i (order_row input id now) refl miss (ground arith))

reuse_order-Books : (input : CreateOrderInput) (o : OrderRow) → Keeps I (reuse_order input o)
unfolding reuse_order
reuse_order-Books input o = search keeps_rules depth 12

place_order-Books :
    (input : CreateOrderInput) (id : String) (now : ℕ) → Keeps I (place_order input id now)
unfolding place_order ◌>>=◌ ◌>>◌ bind get
place_order-Books input id now = record {
  at = λ db i. ensure_kept I _ _ _ db i (λ e.
      maybe_kept I (find (open_of input.user_id) db.orders) _ _ db
        (insert_order_books input id now db i) (λ o h. (reuse_order-Books input o).at db i));
}

finish_order-Books :
    (input : CreateOrderInput) (placed : String × Bool) → Keeps I (finish_order input placed)
unfolding finish_order
finish_order-Books input placed = search read_rules depth 12

replay_order-Books : (user_id id : String) → Keeps I (replay_order user_id id)
unfolding replay_order
replay_order-Books user_id id = search read_rules depth 12

pub create_order-Books :
    (input : CreateOrderInput) (uuid : Option String) (now : ℕ)
    → Keeps I (create_order input uuid now)
unfolding create_order
create_order-Books input uuid now =
    search (read_rules, place_order-Books, finish_order-Books, replay_order-Books) depth 12

pub find_order_replay-Books :
    (user_id key hash : String) → Keeps I (find_order_replay user_id key hash)
unfolding find_order_replay
find_order_replay-Books user_id key hash = search read_rules depth 12

-- Payments.

insert_payment_books :
    (row : PaymentRow) (db : Database)
    → I db
    → row.status ≡ created
    → IsPriced db.orders row
    → I (insert_payment row db).1
unfolding insert_payment ◌>>=◌ ◌>>◌ bind get put write_payments
insert_payment_books row db i new price =
    ensure_kept I _ _ _ db i (λ e. insert_payment-Sound i row new (ground arith) price)

place_payment_books :
    (order : Order) (row : PaymentRow) (now : ℕ) (db : Database)
    → I db
    → row.status ≡ created
    → IsPriced db.orders row
    → I (place_payment order row now db).1
unfolding place_payment ◌>>=◌ ◌>>◌
place_payment_books order row now db i new price =
    bind_kept I (insert_payment row db) _ (insert_payment_books row db i new price)
      (λ t. search read_rules depth 12)

existing_payment-Books : (condition : PaymentRow → Bool) → Keeps I (existing_payment condition)
unfolding existing_payment
existing_payment-Books condition = search read_rules depth 12

payment_for_books :
    (order : Order) (row : PaymentRow) (now : ℕ) (db : Database)
    → I db
    → row.status ≡ created
    → IsPriced db.orders row
    → I (payment_for order row now db).1
unfolding payment_for ◌>>=◌ bind get
payment_for_books order row now db i new price =
    maybe_kept I (find (for_order order.order_id) db.payments) _ _ db
      (λ h. place_payment_books order row now db i new price)
      (λ p h. (existing_payment-Books (for_order order.order_id)).at db i)

begin_payment-Books :
    (input : CreatePaymentInput) (provider : String) (window : ℤ) (id key : String) (n : NewPayment)
    → Keeps I (begin_payment input provider window id key n)
unfolding begin_payment ◌>>=◌ ◌>>◌
begin_payment-Books input provider window id key n = record {
  at = λ db i.
      get_order-elim (λ r. I r.1) db input.user_id input.order_id _ i
        (λ o m e. ensure_kept I _ _ _ db i (λ h.
          bind_kept I (payment_for (order_of o) _ n.started_at db) _
            (payment_for_books (order_of o) _ n.started_at db i refl (o, m, refl, refl, refl))
            (λ made. search read_rules depth 12)));
}

pub create_payment-Books :
    (input : CreatePaymentInput) (provider : String) (window : ℤ) (n : NewPayment)
    → Keeps I (create_payment input provider window n)
unfolding create_payment
create_payment-Books input provider window n =
    search (read_rules, begin_payment-Books, existing_payment-Books) depth 12

pub find_payment_replay-Books :
    (user_id key hash : String) → Keeps I (find_payment_replay user_id key hash)
unfolding find_payment_replay
find_payment_replay-Books user_id key hash = search read_rules depth 12
