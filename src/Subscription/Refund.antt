-- ===== src/Subscription/Refund.antt =====
-- Refunds in services/subscription/internal/postgres/store.go: `applyRefund`, `storeRefund` and
-- `applyClaimedRefund`.
pub mod Idempotence
pub mod Revival
use vpn_platform.Prelude.{
  ℕ, String, Bool, true, false, not, ◌&&◌, Option, none, some, [], ◌∷◌, ◌==◌, update_where, exists,
}
use vpn_platform.Prelude.Int.{ℤ, eqb_ℤ}
use vpn_platform.Prelude.Text.{concat}
use vpn_platform.Subscription.Types.{
  Error, conflict, internal, Status, pending, revoked, EventMeta, RefundSucceeded, RefundWork,
}
use vpn_platform.Subscription.Schema
use vpn_platform.Subscription.Schema.{
  Runtime, Database, SubscriptionRow, PeriodRow, refunded, InboxRow, terminal_event,
}
use vpn_platform.Subscription.Transaction.{
  write_subscriptions, write_inbox, write_periods, branch, maybe, Tx, ◌>>=◌, ◌>>◌, return, throw,
  get, ensure, rows_or, transact, catch, Clock, add_duration,
}
use vpn_platform.Subscription.Entitlement.{EntitlementState, calculate_entitlement, is_paid}
use vpn_platform.Subscription.Inbox.{
  insert_inbox, mark_inbox_processed, dead_letter_inbox, has_event,
}
use vpn_platform.Subscription.Outbox.{with_id, Event, insert_outbox}
use vpn_platform.Subscription.Payment.{find_paid, update_subscription}
use vpn_platform.Subscription.Plan.{is_running}

-- `userID != refund.UserID || …`, negated.
abbrev pub same_purchase : PeriodRow → SubscriptionRow → RefundSucceeded → Bool
same_purchase p s refund =
    s.user_id == refund.user_id
    && (p.source_order_id == refund.order_id
        && (eqb_ℤ p.amount_minor refund.amount_minor && p.currency == refund.currency))

abbrev pub is_pending : Status → Bool
is_pending pending = true
is_pending _ = false

-- `status = 'revoked'` with all dates cleared.
abbrev pub revoked_row : ℕ → SubscriptionRow → SubscriptionRow
revoked_row now r = record r {
  status = revoked;
  current_period_start = none;
  current_period_end = none;
  grace_ends_at = none;
  next_transition_at = none;
  transition_lease_until = none;
  updated_at = now;
}

abbrev pub with_refund : String → PeriodRow → Bool
with_refund id p = elim p.refund_id [ none ↦ false | some r ↦ r == id ]

-- `subscription.revoked.v1`, for the two reasons of a refund.
abbrev pub revoked_event :
    EventMeta → RefundSucceeded → PeriodRow → SubscriptionRow → String → String → Clock → Event
revoked_event meta refund p s reason prefix clock = record {
  topic = "subscription.revoked.v1";
  subscription_id = s.id;
  user_id = s.user_id;
  dedupe_key = concat prefix refund.refund_id;
  correlation_id = meta.correlation_id;
  causation_id = some meta.event_id;
  occurred_at = clock.now;
  content = terminal_event s.id s.user_id reason (p.id ∷ []) refund.refunded_at;
}

-- A period that is refunded already: by the same refund?
unfoldable pub check_refunded : PeriodRow → RefundSucceeded → Tx Bool
check_refunded p refund = do
  stored ← rows_or (internal "load existing refund") p.refund_id
  ensure (stored == refund.refund_id) conflict
  return true

abbrev pub rescheduled : ℕ → ℤ → InboxRow → InboxRow
rescheduled now delay r = record r {
  state = Schema.InboxState.pending;
  lease_until = none;
  next_attempt_at = add_duration now delay;
  last_error_code = some "payment_not_received";
}

module _ ⦃rt : Runtime⦄ where
  abbrev pub refunded_row : RefundSucceeded → PeriodRow → PeriodRow
  refunded_row refund p = record p {
    status = refunded;
    refund_id = some (rt.uuid_text refund.refund_id);
    refunded_at = some refund.refunded_at;
  }

  -- `UPDATE subscription_periods`, with the unique key on `refund_id`.
  unfoldable pub refund_period : String → RefundSucceeded → Tx (Unit {0})
  refund_period period_id refund = do
    rows ← get (λ db. db.periods)
    ensure (not (exists (with_refund (rt.uuid_text refund.refund_id)) rows))
        (internal "mark period refunded")
    write_periods (update_where (λ p. p.id == period_id) (refunded_row refund))

  -- `applyRefund` behind the update of the period: what is left of the entitlement.
  unfoldable pub settle_refund :
      EventMeta
      → RefundSucceeded
      → PeriodRow
      → SubscriptionRow
      → Option String
      → Clock
      → Option EntitlementState
      → Tx (Unit {0})
  settle_refund meta refund p s event_uuid clock none = do
    write_subscriptions (update_where (with_id s.id) (revoked_row clock.now))
    insert_outbox (revoked_event meta refund p s "refund" "refund:" clock) event_uuid clock
  settle_refund meta refund p s event_uuid clock (some e) = do
    update_subscription s.id e.status e.start e.end e.grace_end e.next clock.now
    branch (is_running s.status && is_pending e.status)
        (insert_outbox (revoked_event meta refund p s "refund_gap" "refund-gap:" clock) event_uuid
          clock)
        (return tt)

  -- `applyRefund` of a period that is still paid.
  unfoldable pub refund_paid :
      EventMeta → RefundSucceeded → Option String → Clock → PeriodRow → SubscriptionRow → Tx Bool
  refund_paid meta refund event_uuid clock p s = do
    refund_period p.id refund
    left ← get (λ db. calculate_entitlement db.periods p.subscription_id clock.now)
    settle_refund meta refund p s event_uuid clock left
    return true

  unfoldable pub refund_known :
      EventMeta → RefundSucceeded → Option String → Clock → PeriodRow × SubscriptionRow → Tx Bool
  refund_known meta refund event_uuid clock found = do
    ensure (same_purchase found.0 found.1 refund) conflict
    branch (is_paid found.0.status) (refund_paid meta refund event_uuid clock found.0 found.1)
        (check_refunded found.0 refund)

  unfoldable pub apply_refund : EventMeta → RefundSucceeded → Option String → Clock → Tx Bool
  apply_refund meta refund event_uuid clock = do
    found ← get (λ db. find_paid db (rt.uuid_text refund.payment_id))
    maybe found (return false) (refund_known meta refund event_uuid clock)

  -- `errors.Is(err, domain.ErrConflict)`: the event is dead-lettered, and the transaction goes on to
  -- its commit with what `applyRefund` has written.
  unfoldable pub recover_refund : String → ℕ → Error → Tx (Option Bool)
  recover_refund event_id now conflict =
      dead_letter_inbox event_id now "durable_state_conflict" >> return none
  recover_refund event_id now e = throw e

  -- `applyRefund` with that handler; nothing if the event was dead-lettered.
  unfoldable pub try_refund :
      EventMeta → String → RefundSucceeded → Option String → Clock → Tx (Option Bool)
  try_refund meta inbox_id refund event_uuid clock =
      catch (apply_refund meta refund event_uuid clock >>= λ applied. return (some applied))
        (recover_refund inbox_id clock.now)

  -- What the two callers do with the answer of `applyRefund`; they differ where there is no payment
  -- yet.
  unfoldable pub finish_refund : String → ℕ → Tx (Unit {0}) → Option Bool → Tx (Unit {0})
  finish_refund inbox_id now unpaid (some true) = mark_inbox_processed inbox_id now
  finish_refund inbox_id now unpaid (some false) = unpaid
  finish_refund inbox_id now unpaid none = return tt

  unfoldable pub store_refund : EventMeta → RefundSucceeded → Option String → Clock → Tx (Unit {0})
  store_refund meta refund event_uuid clock = transact (do
    inserted ←
        insert_inbox meta refund.payment_id refund.user_id (some refund) Schema.InboxState.pending
          clock
    branch inserted
        (do
          outcome ← try_refund meta meta.event_id refund event_uuid clock
          finish_refund meta.event_id clock.now (return tt) outcome)
        (return tt))

  unfoldable pub reschedule_refund : String → ℕ → ℤ → Tx (Unit {0})
  reschedule_refund inbox_id now delay =
      write_inbox (update_where (has_event (rt.uuid_text inbox_id)) (rescheduled now delay))

  -- `RefundWork.Meta.EventID` is its `InboxID`.
  unfoldable pub apply_claimed_refund : RefundWork → ℤ → Option String → Clock → Tx (Unit {0})
  apply_claimed_refund work delay event_uuid clock = transact (do
    outcome ← try_refund work.meta work.inbox_id work.refund event_uuid clock
    finish_refund work.inbox_id clock.now (reschedule_refund work.inbox_id clock.now delay) outcome)
