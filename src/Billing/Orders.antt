-- ===== src/Billing/Orders.antt =====
-- Orders in services/billing/internal/postgres/store.go: `CreateOrder`, `FindOrderReplay`, `GetOrder`,
-- and the idempotency keys that orders and payments share.
pub mod Replay
use vpn_platform.Prelude.{
  ℕ, Bool, true, false, not, ◌&&◌, ◌||◌, String, Option, none, some, List, [], ◌∷◌, ◌++◌, ◌==◌,
  find, exists,
}
use vpn_platform.Prelude.Int.{ℤ, eqb_ℤ}
use vpn_platform.Prelude.Text.{codes, is_lower_hex, match_classes, times}
use vpn_platform.Billing.Types.{
  Error, not_found, idempotency_conflict, state_conflict, internal, PlanSnapshot, Order, created,
  CreateOrderInput,
}
use vpn_platform.Billing.Status.{order_open}
use vpn_platform.Billing.Schema.{
  Database, OrderRow, IdempotencyRow, Operation, create_order as order_operation, order_checks,
  length_between,
}
use vpn_platform.Billing.Transaction.{
  Tx, ◌>>=◌, ◌>>◌, return, throw, ensure, get, transact, rows_or, maybe, random_uuid, write_orders,
  write_idempotency_keys,
}

abbrev pub order_of : OrderRow → Order
order_of o = record {
  order_id = o.id;
  user_id = o.user_id;
  status = o.status;
  amount_minor = o.amount_minor;
  currency = o.currency;
  accepted_terms_version = o.accepted_terms_version;
  plan_snapshot = o.plan_snapshot;
  created_at = o.created_at;
}

abbrev pub with_order : String → OrderRow → Bool
with_order id o = o.id == id

abbrev pub owned : String → String → OrderRow → Bool
owned user_id order_id o = o.user_id == user_id && o.id == order_id

unfoldable pub get_order : String → String → Tx Order
get_order user_id order_id = do
  rows ← get (λ db. db.orders)
  o ← rows_or not_found (find (owned user_id order_id) rows)
  return (order_of o)

abbrev pub same_operation : Operation → Operation → Bool
same_operation Operation.create_order Operation.create_order = true
same_operation Operation.create_payment Operation.create_payment = true
same_operation _ _ = false

abbrev pub has_key : String → Operation → String → IdempotencyRow → Bool
has_key subject operation key r =
    r.subject_id == subject && (same_operation r.operation operation && r.idempotency_key == key)

unfoldable pub lookup_idempotency : String → Operation → String → String → Tx (Option String)
lookup_idempotency subject operation key request_hash = do
  rows ← get (λ db. db.idempotency_keys)
  maybe (find (has_key subject operation key) rows) (return none) (λ r. do
    ensure (r.request_hash == request_hash) idempotency_conflict
    return (some r.resource_id))

-- The CHECKs of `idempotency_keys`.
abbrev pub key_checks : IdempotencyRow → Bool
key_checks r =
    length_between 8 128 r.idempotency_key
    && match_classes (times 64 is_lower_hex []) (codes r.request_hash)

unfoldable pub store_idempotency : String → IdempotencyRow → Tx (Unit {0})
store_idempotency what row = do
  rows ← get (λ db. db.idempotency_keys)
  ensure (key_checks row) (internal what)
  ensure (not (exists (has_key row.subject_id row.operation row.idempotency_key) rows))
      (internal what)
  write_idempotency_keys (λ rs. rs ++ row ∷ [])

-- `reflect.DeepEqual`.
unfoldable pub same_snapshot : PlanSnapshot → PlanSnapshot → Bool
same_snapshot a b =
    a.plan_id == b.plan_id
    && (a.name == b.name
        && (eqb_ℤ a.duration_days b.duration_days
            && (eqb_ℤ a.grace_period_hours b.grace_period_hours
                && (eqb_ℤ a.amount_minor b.amount_minor
                    && (a.currency == b.currency
                        && (a.region == b.region
                            && (a.region_policy == b.region_policy
                                && (a.traffic_policy == b.traffic_policy
                                    && (eqb_ℤ a.primary_nodes b.primary_nodes
                                        && eqb_ℤ a.failover_nodes b.failover_nodes)))))))))

-- `user_id=$1 AND status IN ('created','payment_pending')`.
abbrev pub open_of : String → OrderRow → Bool
open_of user_id o = o.user_id == user_id && order_open o.status

abbrev pub order_row : CreateOrderInput → String → ℕ → OrderRow
order_row input id now = record {
  id = id;
  user_id = input.user_id;
  status = created;
  amount_minor = input.snapshot.amount_minor;
  currency = input.snapshot.currency;
  plan_id = input.snapshot.plan_id;
  region = input.region;
  accepted_terms_version = input.accepted_terms_version;
  plan_snapshot = input.snapshot;
  created_at = now;
  updated_at = now;
}

unfoldable pub insert_order : OrderRow → Tx (String × Bool)
insert_order row = do
  rows ← get (λ db. db.orders)
  ensure (not (exists (with_order row.id) rows)) (internal "insert order")
  write_orders (λ os. os ++ row ∷ [])
  return (row.id, true)

-- The open order of the user stands for the new one if it is for the same plan and terms.
unfoldable pub reuse_order : CreateOrderInput → OrderRow → Tx (String × Bool)
reuse_order input o = do
  ensure
      (same_snapshot o.plan_snapshot input.snapshot
        && o.accepted_terms_version == input.accepted_terms_version)
      state_conflict
  return (o.id, false)

-- `INSERT … ON CONFLICT (user_id) WHERE … DO NOTHING`, and what the conflict leads to.
unfoldable pub place_order : CreateOrderInput → String → ℕ → Tx (String × Bool)
place_order input id now = do
  let row = order_row input id now
  ensure (order_checks row) (internal "insert order")
  rows ← get (λ db. db.orders)
  maybe (find (open_of input.user_id) rows) (insert_order row) (reuse_order input)

abbrev pub order_key : CreateOrderInput → String → IdempotencyRow
order_key input id = record {
  subject_id = input.user_id;
  operation = order_operation;
  idempotency_key = input.idempotency_key;
  request_hash = input.request_hash;
  resource_id = id;
}

unfoldable pub replay_order : String → String → Tx (Order × Bool)
replay_order user_id id = do order ← get_order user_id id; return (order, false)

unfoldable pub finish_order : CreateOrderInput → String × Bool → Tx (Order × Bool)
finish_order input placed = do
  store_idempotency "store order idempotency" (order_key input placed.0)
  order ← get_order input.user_id placed.0
  return (order, placed.1)

unfoldable pub create_order : CreateOrderInput → Option String → ℕ → Tx (Order × Bool)
create_order input uuid now = do
  order_id ← random_uuid uuid
  transact (do
    known ←
        lookup_idempotency input.user_id order_operation input.idempotency_key input.request_hash
    maybe known (do placed ← place_order input order_id now; finish_order input placed)
        (replay_order input.user_id))

unfoldable pub find_order_replay : String → String → String → Tx (Option Order)
find_order_replay user_id key request_hash = do
  known ← lookup_idempotency user_id order_operation key request_hash
  maybe known (return none) (λ id. do order ← get_order user_id id; return (some order))
