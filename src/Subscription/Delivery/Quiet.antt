-- ===== src/Subscription/Delivery/Quiet.antt =====
-- The operations that send nothing keep the order of delivery.
use vpn_platform.Prelude.{ℕ, update_where, ◌≡◌, refl, String, Bool, Option, none, some, List, arith}
use vpn_platform.Subscription.Types.{EventMeta, RefundSucceeded, Status}
use vpn_platform.Subscription.Schema.{
  Runtime, SubscriptionRow, InboxRow, PeriodRow, InboxState, DeadLetterRow, AdminRevokeRow,
  SourceRecord,
}
use vpn_platform.Subscription.Transaction.{
  Clock, transactions, write_inbox, write_periods, write_dead_letters, write_admin_revokes,
  write_subscriptions,
}
use vpn_platform.Subscription.Transaction.Keeps.{Keeps, keeps_rules}
use vpn_platform.Subscription.Inbox.{
  insert_inbox, insert_inbox_new, insert_inbox_known, check_replay, mark_inbox_processed,
  set_processed_at, insert_dead_letter, dead_letter_inbox, record_dead_letter, claim_refund,
  lease_refund,
}
use vpn_platform.Subscription.Outbox.Ordering.{update_subscriptions-Ordered}
use vpn_platform.Subscription.Delivery.{InOrder}
use vpn_platform.Subscription.Payment.{update_subscription, updated, insert_period}
use vpn_platform.Subscription.Refund.{check_refunded}

-- Writes to the other tables.
pub write_inbox-InOrder : (f : List InboxRow → List InboxRow) → Keeps InOrder (write_inbox f)
unfolding transactions
write_inbox-InOrder f = record { at = λ db i. i }

pub write_periods-InOrder : (f : List PeriodRow → List PeriodRow) → Keeps InOrder (write_periods f)
unfolding transactions
write_periods-InOrder f = record { at = λ db i. i }

pub write_dead_letters-InOrder :
    (f : List DeadLetterRow → List DeadLetterRow) → Keeps InOrder (write_dead_letters f)
unfolding transactions
write_dead_letters-InOrder f = record { at = λ db i. i }

pub write_admin_revokes-InOrder :
    (f : List AdminRevokeRow → List AdminRevokeRow) → Keeps InOrder (write_admin_revokes f)
unfolding transactions
write_admin_revokes-InOrder f = record { at = λ db i. i }

pub ruleset quiet_rules = (
  keeps_rules, write_inbox-InOrder, write_periods-InOrder, write_dead_letters-InOrder,
  write_admin_revokes-InOrder,
)

pub insert_dead_letter-InOrder :
    (s : SourceRecord) (r : String) → Keeps InOrder (insert_dead_letter s r)
unfolding insert_dead_letter
insert_dead_letter-InOrder s r = search quiet_rules depth 12

pub record_dead_letter-InOrder :
    (s : SourceRecord) (r : String) → Keeps InOrder (record_dead_letter s r)
unfolding record_dead_letter
record_dead_letter-InOrder s r = search (quiet_rules, insert_dead_letter-InOrder) depth 12

pub lease_refund-InOrder : (now lease : ℕ) (r : InboxRow) → Keeps InOrder (lease_refund now lease r)
unfolding lease_refund
lease_refund-InOrder now lease r = search quiet_rules depth 12

pub claim_refund-InOrder : (now lease : ℕ) → Keeps InOrder (claim_refund now lease)
unfolding claim_refund
claim_refund-InOrder now lease = search (quiet_rules, lease_refund-InOrder) depth 12

pub check_replay-InOrder :
    (r : InboxRow) (s : Option SourceRecord) (m : EventMeta) (a b : String)
    → Keeps InOrder (check_replay r s m a b)
unfolding check_replay
check_replay-InOrder r none m a b = search quiet_rules
check_replay-InOrder r (some s) m a b = search quiet_rules depth 12

pub insert_period-InOrder : (row : PeriodRow) → Keeps InOrder (insert_period row)
unfolding insert_period
insert_period-InOrder row = search quiet_rules depth 12

pub check_refunded-InOrder :
    (p : PeriodRow) (r : RefundSucceeded) → Keeps InOrder (check_refunded p r)
unfolding check_refunded
check_refunded-InOrder p r = search quiet_rules depth 12

-- An update of subscriptions that leaves their ids and numbers alone.
pub write_subscriptions-InOrder :
    (p : SubscriptionRow → Bool) (f : SubscriptionRow → SubscriptionRow)
    → ((s : SubscriptionRow) → (f s).id ≡ s.id)
    → ((s : SubscriptionRow) → (f s).aggregate_sequence ≡ s.aggregate_sequence)
    → Keeps InOrder (write_subscriptions (update_where p f))
unfolding transactions
write_subscriptions-InOrder p f same number = record {
  at = λ db i. update_subscriptions-Ordered p f same (λ s. omega (arith, number s)) i;
}

module _ ⦃rt : Runtime⦄ where
  pub insert_inbox_new-InOrder :
      (m : EventMeta) (a b : String) (payload : Option RefundSucceeded) (s : InboxState) (c : Clock)
      → Keeps InOrder (insert_inbox_new m a b payload s c)
  unfolding insert_inbox_new
  insert_inbox_new-InOrder m a b payload s c = search quiet_rules depth 12

  pub insert_inbox_known-InOrder :
      (r : InboxRow) (m : EventMeta) (a b : String) → Keeps InOrder (insert_inbox_known r m a b)
  unfolding insert_inbox_known
  insert_inbox_known-InOrder r m a b = search (quiet_rules, check_replay-InOrder) depth 12

  pub insert_inbox-InOrder :
      (m : EventMeta) (a b : String) (payload : Option RefundSucceeded) (s : InboxState) (c : Clock)
      → Keeps InOrder (insert_inbox m a b payload s c)
  unfolding insert_inbox
  insert_inbox-InOrder m a b payload s c =
      search (quiet_rules, insert_inbox_new-InOrder, insert_inbox_known-InOrder) depth 12

  pub mark_inbox_processed-InOrder :
      (id : String) (now : ℕ) → Keeps InOrder (mark_inbox_processed id now)
  unfolding mark_inbox_processed
  mark_inbox_processed-InOrder id now = search quiet_rules

  pub set_processed_at-InOrder : (id : String) (now : ℕ) → Keeps InOrder (set_processed_at id now)
  unfolding set_processed_at
  set_processed_at-InOrder id now = search quiet_rules

  pub dead_letter_inbox-InOrder :
      (id : String) (now : ℕ) (r : String) → Keeps InOrder (dead_letter_inbox id now r)
  unfolding dead_letter_inbox
  dead_letter_inbox-InOrder id now r = search (quiet_rules, insert_dead_letter-InOrder) depth 16

  pub update_subscription-InOrder :
      (id : String) (s : Status) (a b c : ℕ) (next : Option ℕ) (now : ℕ)
      → Keeps InOrder (update_subscription id s a b c next now)
  unfolding update_subscription
  update_subscription-InOrder id s a b c next now =
      search
        (
          quiet_rules,
          write_subscriptions-InOrder _ (updated s a b c next now) (λ r. refl) (λ r. refl),
        )
        depth 12
