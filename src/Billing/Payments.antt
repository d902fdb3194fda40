-- ===== src/Billing/Payments.antt =====
-- Payments in services/billing/internal/postgres/store.go up to the provider's answer: `CreatePayment`,
-- `FindPaymentReplay`, `GetPayment`, `PrepareProviderCreate`, `ApplyProviderCreate`,
-- `MarkProviderCreateAmbiguous`, `MarkProviderCreateFailed`, `ClaimPaymentForReconcile` and
-- `ReschedulePayment`.
use vpn_platform.Prelude.{
  ℕ, Bool, true, false, not, ◌&&◌, ◌||◌, String, Option, none, some, List, [], ◌∷◌, ◌++◌, ◌==◌,
  find, exists,
}
use vpn_platform.Prelude.Int.{ℤ}
use vpn_platform.Billing.Types.{
  not_found, state_conflict, internal, Order, PaymentOperation, created, payment_pending,
  CreatePaymentInput,
}
use vpn_platform.Billing.Status.{order_open}
use vpn_platform.Billing.Schema.{
  OrderRow, PaymentRow, IdempotencyRow, create_payment as payment_operation,
}
use vpn_platform.Billing.Transaction.{
  Tx, ◌>>=◌, ◌>>◌, return, ensure, get, transact, rows_or, maybe, random_uuid, write_payments,
  update_orders, add_duration,
}
use vpn_platform.Billing.Orders.{with_order, get_order, lookup_idempotency, store_idempotency}

-- The columns of `paymentSelect`.
abbrev pub operation_of : PaymentRow → OrderRow → PaymentOperation
operation_of p o = record {
  payment = record {
    payment_id = p.id;
    order_id = p.order_id;
    status = p.status;
    amount_minor = p.amount_minor;
    currency = p.currency;
    confirmation_url = p.confirmation_url;
    paid_at = p.paid_at;
    created_at = p.created_at;
  };
  user_id = o.user_id;
  plan_id = o.plan_id;
  provider = p.provider;
  provider_payment_id = p.provider_payment_id;
  provider_idempotency_key = p.provider_idempotency_key;
  provider_create_deadline = p.provider_create_deadline;
  next_reconcile_at = p.next_reconcile_at;
  reconcile_attempts = p.reconcile_attempts;
}

abbrev pub operation_with : PaymentRow → Option OrderRow → Option PaymentOperation
operation_with p none = none
operation_with p (some o) = some (operation_of p o)

-- `JOIN orders o ON o.id=p.order_id`.
unfoldable pub join_order : List OrderRow → PaymentRow → Option PaymentOperation
join_order orders p = operation_with p (find (with_order p.order_id) orders)

abbrev pub with_payment : String → PaymentRow → Bool
with_payment id p = p.id == id

abbrev pub for_order : String → PaymentRow → Bool
for_order id p = p.order_id == id

abbrev pub is_text : Option String → String → Bool
is_text none s = false
is_text (some t) s = t == s

abbrev pub at_provider : String → PaymentRow → Bool
at_provider id p = is_text p.provider_payment_id id

-- `getPayment`: each of the conditions is on a unique column of `payments`.
unfoldable pub get_payment : (PaymentRow → Bool) → Tx PaymentOperation
get_payment condition = do
  payments ← get (λ db. db.payments)
  p ← rows_or not_found (find condition payments)
  orders ← get (λ db. db.orders)
  rows_or not_found (join_order orders p)

unfoldable pub find_payment_replay : String → String → String → Tx (Option PaymentOperation)
find_payment_replay user_id key request_hash = do
  known ← lookup_idempotency user_id payment_operation key request_hash
  maybe known (return none) (λ id. do p ← get_payment (with_payment id); return (some p))

-- The random texts and clocks of `CreatePayment`.
pub record NewPayment : Type 0 where
  pub payment_uuid : Option String
  pub key_uuid : Option String
  pub started_at : ℕ  -- the database's now()
  pub clock : ℕ  -- the service's time.Now()

abbrev pub payment_row :
    Order → (payment_id provider_key provider : String) (deadline now : ℕ) → PaymentRow
payment_row order payment_id provider_key provider deadline now = record {
  id = payment_id;
  order_id = order.order_id;
  provider = provider;
  provider_payment_id = none;
  provider_idempotency_key = provider_key;
  status = created;
  amount_minor = order.amount_minor;
  currency = order.currency;
  confirmation_url = none;
  provider_create_deadline = deadline;
  next_reconcile_at = now;
  reconcile_lease_until = none;
  reconcile_attempts = 0;
  last_error_code = none;
  paid_at = none;
  canceled_at = none;
  created_at = now;
  updated_at = now;
}

-- The unique columns of a new payment; its order has none yet.
abbrev pub clashes : PaymentRow → PaymentRow → Bool
clashes n p =
    p.id == n.id
    || (p.order_id == n.order_id || p.provider_idempotency_key == n.provider_idempotency_key)

unfoldable pub insert_payment : PaymentRow → Tx (Unit {0})
insert_payment row = do
  rows ← get (λ db. db.payments)
  ensure (row.provider == "yookassa" && not (exists (clashes row) rows)) (internal "insert payment")
  write_payments (λ ps. ps ++ row ∷ [])

unfoldable pub place_payment : Order → PaymentRow → ℕ → Tx (PaymentOperation × Bool)
place_payment order row now = do
  insert_payment row
  update_orders "mark order payment pending" (with_order order.order_id) payment_pending now
  payment ← get_payment (with_payment row.id)
  return (payment, true)

unfoldable pub existing_payment : (PaymentRow → Bool) → Tx (PaymentOperation × Bool)
existing_payment condition = do payment ← get_payment condition; return (payment, false)

-- The one payment of the order, or a new one.
unfoldable pub payment_for : Order → PaymentRow → ℕ → Tx (PaymentOperation × Bool)
payment_for order row now = do
  rows ← get (λ db. db.payments)
  maybe (find (for_order order.order_id) rows) (place_payment order row now)
      (λ p. existing_payment (for_order order.order_id))

abbrev pub payment_key : CreatePaymentInput → String → IdempotencyRow
payment_key input id = record {
  subject_id = input.user_id;
  operation = payment_operation;
  idempotency_key = input.idempotency_key;
  request_hash = input.request_hash;
  resource_id = id;
}

unfoldable pub begin_payment :
    CreatePaymentInput → String → ℤ → String → String → NewPayment → Tx (PaymentOperation × Bool)
begin_payment input provider create_window payment_id provider_key n = do
  order ← get_order input.user_id input.order_id
  ensure (order_open order.status) state_conflict
  let deadline = add_duration n.clock create_window
  made ←
      payment_for order (payment_row order payment_id provider_key provider deadline n.started_at)
        n.started_at
  store_idempotency "store payment idempotency" (payment_key input made.0.payment.payment_id)
  return made

unfoldable pub create_payment :
    CreatePaymentInput → String → ℤ → NewPayment → Tx (PaymentOperation × Bool)
create_payment input provider create_window n = do
  payment_id ← random_uuid n.payment_uuid
  provider_key ← random_uuid n.key_uuid
  transact (do
    known ←
        lookup_idempotency input.user_id payment_operation input.idempotency_key input.request_hash
    maybe known (begin_payment input provider create_window payment_id provider_key n)
        (λ id. existing_payment (with_payment id)))
