-- ===== src/Subscription/Due.antt =====
-- The lifecycle in services/subscription/internal/postgres/store.go: `claimDue` and `completeDue`.
pub mod Progress
use vpn_platform.Prelude.{
  ℕ, ◌+◌, String, Bool, true, false, not, ◌&&◌, ◌||◌, Option, none, some, [], leb, ltb, eqb,
  if◌then◌else◌, find, select, update_where, sort_by, head_option,
}
use vpn_platform.Prelude.Text.{concat, codes, ltb_codes}
use vpn_platform.Subscription.Types.{
  internal, Status, pending, active, grace, expired, revoked, Subscription,
}
use vpn_platform.Subscription.Schema.{
  Runtime, SubscriptionRow, EventData, period_event, terminal_event, grace_started_event,
}
use vpn_platform.Subscription.Transaction.{
  write_subscriptions, branch, maybe, Tx, ◌>>=◌, ◌>>◌, return, get, rows_or, transact, Clock,
}
use vpn_platform.Subscription.Entitlement.{EntitlementState, calculate_entitlement}
use vpn_platform.Subscription.Inbox.{lease_free}
use vpn_platform.Subscription.Outbox.{with_id, Event, insert_outbox}
use vpn_platform.Subscription.Payment.{update_subscription}
use vpn_platform.Subscription.Plan.{subscription_of}
use vpn_platform.Subscription.Refund.{is_pending}

abbrev pub is_terminal : Status → Bool
is_terminal expired = true
is_terminal revoked = true
is_terminal _ = false

-- `next_transition_at <= now`, which a NULL never satisfies.
abbrev pub due_at : Option ℕ → ℕ → Bool
due_at none now = false
due_at (some t) now = leb t now

abbrev pub is_due : ℕ → SubscriptionRow → Bool
is_due now r =
    not (is_terminal r.status)
    && (due_at r.next_transition_at now && lease_free r.transition_lease_until now)

-- `ORDER BY next_transition_at, id`, on rows where it is set.
abbrev compare_due : Option ℕ → String → Option ℕ → String → Bool
compare_due (some s) a (some t) b = ltb s t || (eqb s t && ltb_codes (codes a) (codes b))
compare_due _ _ _ _ = false

abbrev pub due_before : SubscriptionRow → SubscriptionRow → Bool
due_before a b = compare_due a.next_transition_at a.id b.next_transition_at b.id

abbrev pub leased : ℕ → SubscriptionRow → SubscriptionRow
leased until r = record r { transition_lease_until = some until }

unfoldable pub lease_due : ℕ → ℕ → SubscriptionRow → Tx (Option Subscription)
lease_due now lease r = do
  write_subscriptions (update_where (with_id r.id) (leased (now + lease)))
  return (some (subscription_of r))

unfoldable pub claim_due : ℕ → ℕ → Tx (Option Subscription)
claim_due now lease = do
  rows ← get (λ db. db.subscriptions)
  maybe (head_option (sort_by due_before (select (is_due now) rows))) (return none)
      (lease_due now lease)

abbrev pub expired_row : ℕ → SubscriptionRow → SubscriptionRow
expired_row now r = record r {
  status = expired;
  next_transition_at = none;
  transition_lease_until = none;
  updated_at = now;
}

abbrev pub same_status : Status → Status → Bool
same_status pending pending = true
same_status active active = true
same_status grace grace = true
same_status expired expired = true
same_status revoked revoked = true
same_status _ _ = false

-- The events of a transition have no cause and no correlation of their own.
abbrev pub transition_event : String → String → SubscriptionRow → String → EventData → Clock → Event
transition_event topic id s dedupe_key content clock = record {
  topic = topic;
  subscription_id = id;
  user_id = s.user_id;
  dedupe_key = dedupe_key;
  correlation_id = "";
  causation_id = none;
  occurred_at = clock.now;
  content = content;
}

-- The instant at which a subscription without entitlement expired.
abbrev pub expiry_of : Option ℕ → ℕ → ℕ
expiry_of none now = now
expiry_of (some g) now = if leb g now then g else now

abbrev pub gap_event : String → SubscriptionRow → EntitlementState → Clock → Event
gap_event id s e clock =
    transition_event "subscription.expired.v1" id s (concat "gap-expired:" e.period.id)
      (terminal_event id s.user_id "expired" [] clock.now) clock

abbrev pub activated_event : String → SubscriptionRow → EntitlementState → Clock → Event
activated_event id s e clock =
    transition_event "subscription.activated.v1" id s (concat "transition-activated:" e.period.id)
      (period_event id s.user_id e.period.id e.period.source_order_id e.period.source_payment_id
        e.period.period_start e.period.period_end e.period.grace_ends_at)
      clock

module _ ⦃rt : Runtime⦄ where
  abbrev pub expired_event : String → SubscriptionRow → Clock → Event
  expired_event id s clock =
      let effective = expiry_of s.grace_ends_at clock.now in
      transition_event "subscription.expired.v1" id s
        (concat "expired:" (concat id (concat ":" (rt.rfc3339_nano effective))))
        (terminal_event id s.user_id "expired" [] effective) clock

  abbrev pub grace_event : String → SubscriptionRow → EntitlementState → Clock → Event
  grace_event id s e clock =
      transition_event "subscription.grace.started.v1" id s
        (concat "grace:" (concat id (concat ":" (rt.rfc3339_nano e.end))))
        (grace_started_event id s.user_id e.end e.grace_end e.end) clock

  -- `completeDue` where no valid period is left.
  unfoldable pub expire : String → SubscriptionRow → Option String → Clock → Tx (Unit {0})
  expire id s event_uuid clock = do
    branch (not (is_terminal s.status)) (insert_outbox (expired_event id s clock) event_uuid clock)
        (return tt)
    write_subscriptions (update_where (with_id (rt.uuid_text id)) (expired_row clock.now))

  -- `completeDue` where there is one. Its three tests exclude one another.
  unfoldable pub advance :
      String → SubscriptionRow → EntitlementState → Option String → Clock → Tx (Unit {0})
  advance id s e event_uuid clock = do
    branch (not (is_pending s.status) && is_pending e.status)
        (insert_outbox (gap_event id s e clock) event_uuid clock) (return tt)
    branch (is_pending s.status && same_status e.status active)
        (insert_outbox (activated_event id s e clock) event_uuid clock) (return tt)
    branch (same_status s.status active && same_status e.status grace)
        (insert_outbox (grace_event id s e clock) event_uuid clock) (return tt)
    update_subscription id e.status e.start e.end e.grace_end e.next clock.now

  unfoldable pub complete_due : String → Option String → Clock → Tx (Unit {0})
  complete_due subscription_id event_uuid clock = transact (do
    rows ← get (λ db. db.subscriptions)
    s ←
        rows_or (internal "lock due subscription")
          (find (with_id (rt.uuid_text subscription_id)) rows)
    left ← get (λ db. calculate_entitlement db.periods (rt.uuid_text subscription_id) clock.now)
    maybe s.transition_lease_until (return tt) (λ until.
        maybe left (expire subscription_id s event_uuid clock)
          (λ e. advance subscription_id s e event_uuid clock)))
