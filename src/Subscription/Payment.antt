-- ===== src/Subscription/Payment.antt =====
-- Payments in services/subscription/internal/postgres/store.go: `recordPaymentReplay`,
-- `applyPayment`, `getOrCreateSubscription`, `updateSubscription`.
pub mod Idempotence
use vpn_platform.Prelude.{
  ℕ, String, Bool, true, false, not, ◌&&◌, ◌||◌, Option, none, some, [], ◌∷◌, ◌++◌, leb, ltb, eqb,
  ◌==◌, if◌then◌else◌, find, select, update_where, exists, sort_by, head_option,
}
use vpn_platform.Prelude.Int.{ℤ, eqb_ℤ, wrap64, scale}
use vpn_platform.Prelude.Text.{concat}
use vpn_platform.Subscription.Types.{
  not_found, conflict, internal, Status, pending, active, grace, expired, EventMeta,
  PaymentSucceeded, Order, Subscription, Placement,
}
use vpn_platform.Subscription.Schema.{
  Runtime, Database, SubscriptionRow, PeriodRow, paid, processing, processed, period_event,
  terminal_event,
}
use vpn_platform.Subscription.Transaction.{
  write_subscriptions, write_periods, branch, maybe, Tx, ◌>>=◌, ◌>>◌, return, get, ensure, rows_or,
  transact, Clock, random_uuid, add_duration,
}
use vpn_platform.Subscription.Entitlement.{status_at, period_before, is_paid}
use vpn_platform.Subscription.Inbox.{insert_inbox, mark_inbox_processed, set_processed_at}
use vpn_platform.Subscription.Outbox.{with_id, Event, insert_outbox}
use vpn_platform.Subscription.Plan.{subscription_of, Plan, plan_of}

abbrev pub of_user : String → SubscriptionRow → Bool
of_user id r = r.user_id == id

abbrev pub paid_by : String → PeriodRow → Bool
paid_by id p = p.source_payment_id == id

-- The period of a payment with its subscription: the join of the replay checks.
unfoldable pub find_paid : Database → String → Option (PeriodRow × SubscriptionRow)
find_paid db payment_id = elim (find (paid_by payment_id) db.periods) [
  | none ↦ none
  | some p ↦ elim (find (with_id p.subscription_id) db.subscriptions) [
    | none ↦ none
    | some s ↦ some (p, s)
  ]
]

abbrev pub updated : Status → ℕ → ℕ → ℕ → Option ℕ → ℕ → SubscriptionRow → SubscriptionRow
updated status start end grace_end next now r = record r {
  status = status;
  current_period_start = some start;
  current_period_end = some end;
  grace_ends_at = some grace_end;
  next_transition_at = next;
  transition_lease_until = none;
  updated_at = now;
}

-- The unique keys of `subscription_periods` and its CHECK on the dates.
abbrev pub period_clashes : PeriodRow → PeriodRow → Bool
period_clashes a b =
    a.id == b.id
    || (a.source_order_id == b.source_order_id || a.source_payment_id == b.source_payment_id)

unfoldable pub insert_period : PeriodRow → Tx (Unit {0})
insert_period row = do
  rows ← get (λ db. db.periods)
  ensure
      (ltb row.period_start row.period_end
        && leb row.period_end row.grace_ends_at
        && not (exists (period_clashes row) rows))
      (internal "insert subscription period")
  write_periods (λ ps. ps ++ row ∷ [])

abbrev pub same_payment : PeriodRow → SubscriptionRow → PaymentSucceeded → Bool
same_payment p s payment =
    s.user_id == payment.user_id
    && (p.source_order_id == payment.order_id
        && (p.plan_id == payment.plan_id
            && (eqb_ℤ p.amount_minor payment.amount_minor
                && (p.currency == payment.currency && eqb p.paid_at payment.paid_at))))

-- The event of an applied payment: a period, or the expiry of one that has passed already.
unfoldable pub payment_event :
    EventMeta → PaymentSucceeded → String → String → Plan → Status → Clock → Event
payment_event meta payment subscription_id period_id plan status clock =
    let topic : String = elim status [ expired ↦ "subscription.expired.v1" | _ ↦ plan.topic ] in
    record {
      topic = topic;
      subscription_id = subscription_id;
      user_id = payment.user_id;
      dedupe_key = concat "payment:" (concat payment.payment_id (concat ":" topic));
      correlation_id = meta.correlation_id;
      causation_id = some meta.event_id;
      occurred_at = clock.now;
      content = elim status [
        | expired ↦
            terminal_event subscription_id payment.user_id "expired" (period_id ∷ []) plan.grace_end
        | _ ↦
            period_event subscription_id payment.user_id period_id payment.order_id
              payment.payment_id plan.period_start plan.period_end plan.grace_end
      ];
    }

module _ ⦃rt : Runtime⦄ where
  -- With the table's CHECK on the three dates.
  unfoldable pub update_subscription : String → Status → ℕ → ℕ → ℕ → Option ℕ → ℕ → Tx (Unit {0})
  update_subscription id status start end grace_end next now = do
    ensure (ltb start end && leb end grace_end) (internal "update subscription state")
    write_subscriptions
        (update_where (with_id (rt.uuid_text id)) (updated status start end grace_end next now))

  abbrev pub new_subscription : String → String → ℕ → SubscriptionRow
  new_subscription id user_id now = record {
    id = rt.uuid_text id;
    user_id = rt.uuid_text user_id;
    status = pending;
    current_period_start = none;
    current_period_end = none;
    grace_ends_at = none;
    next_transition_at = none;
    transition_lease_until = none;
    aggregate_sequence = 0;
    created_at = now;
    updated_at = now;
  }

  -- `INSERT … ON CONFLICT (user_id) DO NOTHING`: was the row created?
  unfoldable pub create_subscription : String → String → ℕ → Tx Bool
  create_subscription id user_id now = do
    rows ← get (λ db. db.subscriptions)
    branch (exists (of_user (rt.uuid_text user_id)) rows) (return false) (do
      ensure (not (exists (with_id (rt.uuid_text id)) rows)) (internal "create subscription")
      write_subscriptions (λ rs. rs ++ new_subscription id user_id now ∷ [])
      return true)

  unfoldable pub get_or_create_subscription : String → Option String → ℕ → Tx (Subscription × Bool)
  get_or_create_subscription user_id uuid now = do
    id ← random_uuid uuid
    created ← create_subscription id user_id now
    rows ← get (λ db. db.subscriptions)
    r ← rows_or (internal "lock subscription") (find (of_user (rt.uuid_text user_id)) rows)
    return (subscription_of r, created)

  -- `recordPaymentReplay` of a payment that has its period.
  unfoldable pub record_replay :
      EventMeta → PaymentSucceeded → Clock → PeriodRow × SubscriptionRow → Tx Bool
  record_replay meta payment clock found = do
    ensure (same_payment found.0 found.1 payment) conflict
    inserted ← insert_inbox meta payment.payment_id payment.user_id none processed clock
    branch inserted (set_processed_at meta.event_id clock.now) (return tt)
    return true

  -- `recordPaymentReplay`: has the payment been applied already?
  unfoldable pub record_payment_replay : EventMeta → PaymentSucceeded → Clock → Tx Bool
  record_payment_replay meta payment clock = transact (do
    applied ← get (λ db. find_paid db (rt.uuid_text payment.payment_id))
    maybe applied (return false) (record_replay meta payment clock))

  abbrev pub period_row : String → String → PaymentSucceeded → Order → Plan → PeriodRow
  period_row id subscription_id payment order plan = record {
    id = rt.uuid_text id;
    subscription_id = rt.uuid_text subscription_id;
    source_order_id = rt.uuid_text payment.order_id;
    source_payment_id = rt.uuid_text payment.payment_id;
    plan_id = payment.plan_id;
    region = order.plan_snapshot.region;
    primary_nodes = order.plan_snapshot.primary_nodes;
    failover_nodes = order.plan_snapshot.failover_nodes;
    amount_minor = payment.amount_minor;
    currency = payment.currency;
    duration_days = order.plan_snapshot.duration_days;
    grace_period_hours = order.plan_snapshot.grace_period_hours;
    paid_at = payment.paid_at;
    period_start = plan.period_start;
    period_end = plan.period_end;
    grace_ends_at = plan.grace_end;
    status = paid;
    refund_id = none;
    refunded_at = none;
  }

  -- `applyPayment` from the subscription on.
  unfoldable pub add_period :
      EventMeta
      → PaymentSucceeded
      → Order
      → Subscription
      → Bool
      → Option String
      → Option String
      → Clock
      → Tx (Unit {0})
  add_period meta payment order s created period_uuid event_uuid clock = do
    let plan = plan_of s created payment order clock.now
    period_id ← random_uuid period_uuid
    insert_period (period_row period_id s.subscription_id payment order plan)
    let status = status_at clock.now plan.start plan.period_end plan.grace_end
    update_subscription s.subscription_id status.0 plan.start plan.period_end plan.grace_end
        status.1 clock.now
    insert_outbox (payment_event meta payment s.subscription_id period_id plan status.0 clock)
        event_uuid clock

  -- `applyPayment` of a payment that has its period already.
  unfoldable pub apply_known :
      EventMeta → PaymentSucceeded → Clock → PeriodRow × SubscriptionRow → Tx (Unit {0})
  apply_known meta payment clock found = do
    ensure (found.1.user_id == payment.user_id && found.0.source_order_id == payment.order_id)
        conflict
    mark_inbox_processed meta.event_id clock.now

  unfoldable pub apply_new :
      EventMeta
      → PaymentSucceeded
      → Order
      → Option String
      → Option String
      → Option String
      → Clock
      → Tx (Unit {0})
  apply_new meta payment order subscription_uuid period_uuid event_uuid clock = do
    found ← get_or_create_subscription payment.user_id subscription_uuid clock.now
    add_period meta payment order found.0 found.1 period_uuid event_uuid clock
    mark_inbox_processed meta.event_id clock.now

  -- The texts that one call takes from `RandomUUID`, in order.
  unfoldable pub apply_payment :
      EventMeta
      → PaymentSucceeded
      → Order
      → Option String
      → Option String
      → Option String
      → Clock
      → Tx (Unit {0})
  apply_payment meta payment order subscription_uuid period_uuid event_uuid clock = transact (do
    inserted ← insert_inbox meta payment.payment_id payment.user_id none processing clock
    applied ← get (λ db. find_paid db (rt.uuid_text payment.payment_id))
    branch inserted
        (maybe applied (apply_new meta payment order subscription_uuid period_uuid event_uuid clock)
          (apply_known meta payment clock))
        (return tt))
