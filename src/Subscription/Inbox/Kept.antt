-- ===== src/Subscription/Inbox/Kept.antt =====
-- The steps of the payment and refund transactions leave a stored event in the inbox.
use vpn_platform.Prelude.{ℕ, refl, String, Bool, Option, List}
use vpn_platform.Subscription.Types.{EventMeta, PaymentSucceeded, Order, Subscription, Status}
use vpn_platform.Subscription.Schema.{
  Runtime, SubscriptionRow, PeriodRow, OutboxRow, DeadLetterRow, SourceRecord,
}
use vpn_platform.Subscription.Transaction.{
  Clock, transactions, write_outbox, write_subscriptions, write_periods, write_dead_letters,
}
use vpn_platform.Subscription.Transaction.Keeps.{Keeps, keeps_rules}
use vpn_platform.Subscription.Inbox.{
  mark_inbox_processed, processed_row, dead_letter_inbox, dead_row, insert_dead_letter,
}
use vpn_platform.Subscription.Inbox.Insertion.{Holds, write_inbox-Holds}
use vpn_platform.Subscription.Outbox.{Event, insert_outbox}
use vpn_platform.Subscription.Payment.{
  create_subscription, get_or_create_subscription, insert_period, update_subscription, add_period,
  apply_known, apply_new,
}

module _ ⦃rt : Runtime⦄ (m : EventMeta) (a b : String) where
  pub write_outbox-Holds :
      (f : List OutboxRow → List OutboxRow) → Keeps (Holds m a b) (write_outbox f)
  unfolding transactions Holds
  write_outbox-Holds f = record { at = λ db i. i }

  pub write_subscriptions-Holds :
      (f : List SubscriptionRow → List SubscriptionRow)
      → Keeps (Holds m a b) (write_subscriptions f)
  unfolding transactions Holds
  write_subscriptions-Holds f = record { at = λ db i. i }

  pub write_periods-Holds :
      (f : List PeriodRow → List PeriodRow) → Keeps (Holds m a b) (write_periods f)
  unfolding transactions Holds
  write_periods-Holds f = record { at = λ db i. i }

  pub write_dead_letters-Holds :
      (f : List DeadLetterRow → List DeadLetterRow) → Keeps (Holds m a b) (write_dead_letters f)
  unfolding transactions Holds
  write_dead_letters-Holds f = record { at = λ db i. i }

  pub ruleset kept_rules = (
    keeps_rules, write_outbox-Holds, write_subscriptions-Holds, write_periods-Holds,
    write_dead_letters-Holds,
  )

  pub mark_inbox_processed-Holds :
      (id : String) (now : ℕ) → Keeps (Holds m a b) (mark_inbox_processed id now)
  unfolding mark_inbox_processed
  mark_inbox_processed-Holds id now =
      write_inbox-Holds m a b _ (processed_row now) (λ r. refl) (λ r. refl) (λ r. refl) (λ r. refl)
        (λ r. refl) (λ r. refl) (λ r. refl)

  insert_dead_letter-Holds :
      (s : SourceRecord) (reason : String) → Keeps (Holds m a b) (insert_dead_letter s reason)
  unfolding insert_dead_letter
  insert_dead_letter-Holds s reason = search kept_rules depth 12

  pub dead_letter_inbox-Holds :
      (id : String) (now : ℕ) (reason : String)
      → Keeps (Holds m a b) (dead_letter_inbox id now reason)
  unfolding dead_letter_inbox
  dead_letter_inbox-Holds id now reason =
      search
        (
          kept_rules,
          insert_dead_letter-Holds,
          write_inbox-Holds m a b _ (dead_row now reason) (λ r. refl) (λ r. refl) (λ r. refl)
              (λ r. refl) (λ r. refl) (λ r. refl) (λ r. refl),
        )
        depth 16

  pub insert_outbox-Holds :
      (e : Event) (id : Option String) (c : Clock) → Keeps (Holds m a b) (insert_outbox e id c)
  unfolding insert_outbox
  insert_outbox-Holds e id c = search kept_rules depth 16

  pub update_subscription-Holds :
      (id : String) (s : Status) (x y z : ℕ) (next : Option ℕ) (now : ℕ)
      → Keeps (Holds m a b) (update_subscription id s x y z next now)
  unfolding update_subscription
  update_subscription-Holds id s x y z next now = search kept_rules depth 12

  insert_period-Holds : (row : PeriodRow) → Keeps (Holds m a b) (insert_period row)
  unfolding insert_period
  insert_period-Holds row = search kept_rules depth 12

  create_subscription-Holds :
      (id user_id : String) (now : ℕ) → Keeps (Holds m a b) (create_subscription id user_id now)
  unfolding create_subscription
  create_subscription-Holds id user_id now = search kept_rules depth 12

  get_or_create_subscription-Holds :
      (user_id : String) (id : Option String) (now : ℕ)
      → Keeps (Holds m a b) (get_or_create_subscription user_id id now)
  unfolding get_or_create_subscription
  get_or_create_subscription-Holds user_id id now =
      search (kept_rules, create_subscription-Holds) depth 16

  add_period-Holds :
      (n : EventMeta) (p : PaymentSucceeded) (o : Order) (s : Subscription) (new : Bool)
      (x y : Option String) (c : Clock)
      → Keeps (Holds m a b) (add_period n p o s new x y c)
  unfolding add_period
  add_period-Holds n p o s new x y c =
      search (kept_rules, insert_outbox-Holds, insert_period-Holds, update_subscription-Holds) depth
        16

  pub apply_known-Holds :
      (n : EventMeta) (p : PaymentSucceeded) (c : Clock) (f : PeriodRow × SubscriptionRow)
      → Keeps (Holds m a b) (apply_known n p c f)
  unfolding apply_known
  apply_known-Holds n p c f = search (kept_rules, mark_inbox_processed-Holds) depth 12

  pub apply_new-Holds :
      (n : EventMeta) (p : PaymentSucceeded) (o : Order) (x y z : Option String) (c : Clock)
      → Keeps (Holds m a b) (apply_new n p o x y z c)
  unfolding apply_new
  apply_new-Holds n p o x y z c =
      search
        (kept_rules, mark_inbox_processed-Holds, get_or_create_subscription-Holds, add_period-Holds)
        depth 16
