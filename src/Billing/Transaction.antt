-- ===== src/Billing/Transaction.antt =====
-- The transactions of services/billing/internal/postgres/store.go: the writes to its tables, with
-- what the triggers of `orders` and `payments` refuse. Row locks make concurrent transactions on one
-- payment or order run one after the other.
pub mod Keeps
use vpn_platform.Prelude.{
  ℕ, Bool, not, ◌&&◌, String, Option, none, some, List, exists, update_where, ◌==◌,
}
use vpn_platform.Billing.Types.{Error, internal, OrderStatus}
use vpn_platform.Billing.Schema.{
  Database, OrderRow, PaymentRow, IdempotencyRow, WebhookRow, OutboxRow, provider_id_kept,
}
use vpn_platform.Billing.Status.{order_transition, payment_transition}
use vpn_platform.Store
use vpn_platform.Store.{combinators}
unfoldable pub use vpn_platform.Store.{
  bind, ◌>>=◌, ◌>>◌, return, throw, ensure, get, put, handle, catch, settle, transact, rows_or,
  branch, maybe, fetched, add_duration,
}

abbrev pub Tx : Type 0 → Type 0
Tx A = Store.Tx Error Database A

-- The writes to one table each.
unfoldable pub write_orders : (List OrderRow → List OrderRow) → Tx (Unit {0})
write_orders f = put (λ db. record db { orders = f db.orders })

unfoldable pub write_payments : (List PaymentRow → List PaymentRow) → Tx (Unit {0})
write_payments f = put (λ db. record db { payments = f db.payments })

unfoldable pub write_idempotency_keys : (List IdempotencyRow → List IdempotencyRow) → Tx (Unit {0})
write_idempotency_keys f = put (λ db. record db { idempotency_keys = f db.idempotency_keys })

unfoldable pub write_webhooks : (List WebhookRow → List WebhookRow) → Tx (Unit {0})
write_webhooks f = put (λ db. record db { webhooks = f db.webhooks })

unfoldable pub write_outbox : (List OutboxRow → List OutboxRow) → Tx (Unit {0})
write_outbox f = put (λ db. record db { outbox = f db.outbox })

-- `cryptoutil.RandomUUID`: its text, or nothing where the random source fails.
unfoldable pub random_uuid : Option String → Tx String
random_uuid none = throw (internal "generate UUID")
random_uuid (some id) = return id

-- Every row that passes `p` passes `q`.
abbrev pub all_where : {A : Type 0} → (A → Bool) → (A → Bool) → List A → Bool
all_where p q rows = not (exists (λ a. p a && not (q a)) rows)

abbrev pub with_status : OrderStatus → ℕ → OrderRow → OrderRow
with_status s now o = record o { status = s; updated_at = now }

-- `UPDATE orders SET status=…,updated_at=now() WHERE p`, under `orders_snapshot_immutable`.
unfoldable pub update_orders : String → (OrderRow → Bool) → OrderStatus → ℕ → Tx (Unit {0})
update_orders what p s now = do
  rows ← get (λ db. db.orders)
  ensure (all_where p (λ o. order_transition o.status s) rows) (internal what)
  write_orders (update_where p (with_status s now))

abbrev pub payment_trigger : (PaymentRow → PaymentRow) → PaymentRow → Bool
payment_trigger f r =
    payment_transition r.status (f r).status
    && provider_id_kept r.provider_payment_id (f r).provider_payment_id

-- `UPDATE payments SET f WHERE p`, under `payments_invariants`.
unfoldable pub update_payments :
    String → (PaymentRow → Bool) → (PaymentRow → PaymentRow) → Tx (Unit {0})
update_payments what p f = do
  rows ← get (λ db. db.payments)
  ensure (all_where p (payment_trigger f) rows) (internal what)
  write_payments (update_where p f)

-- Opens all of them at once.
unfoldable pub transactions : Unit {0}
unfolding combinators random_uuid write_orders write_payments write_idempotency_keys write_webhooks
    write_outbox update_orders update_payments
transactions = tt
