-- ===== src/Subscription/Delivery/Sends.antt =====
-- The operations on the outbox, and the creation of a subscription, keep the order of delivery.
use vpn_platform.Prelude.{
  ℕ, suc, ◌≡◌, refl, String, Bool, true, false, not, inl, inr, ◌++◌, [], ◌∷◌, update_where, Option,
  none, some, Option-cases, arith, exists, find, head_option, sort_by, select,
}
use vpn_platform.Prelude.Int.{ℤ}
use vpn_platform.Prelude.Tables.Members.{In-head_select}
use vpn_platform.Subscription.Types.{conflict, internal}
use vpn_platform.Subscription.Schema.{Runtime, Database, OutboxRow, SubscriptionRow}
use vpn_platform.Subscription.Transaction.{
  Clock, transactions, rows_or, bind, ensure, ◌>>◌, write_outbox, write_subscriptions, branch,
  return, maybe,
}
use vpn_platform.Subscription.Transaction.Keeps.{Keeps, keeps_rules}
use vpn_platform.Subscription.Outbox.{
  Event, insert_outbox, claim_outbox, lease_outbox, complete_outbox, retry_outbox, claimable,
  sent_before, with_id, advanced, clashes, outbox_row,
}
use vpn_platform.Subscription.Outbox.Ordering.{update_subscriptions-Ordered}
use vpn_platform.Subscription.Outbox.Ordering.Writes.{create-Ordered, send-Ordered}
use vpn_platform.Subscription.Outbox.Ordering.Steps.{complete-Ordered, retry-Ordered, claim-Ordered}
use vpn_platform.Subscription.Payment.{
  create_subscription, new_subscription, get_or_create_subscription,
}
use vpn_platform.Subscription.Delivery.{InOrder}

module _ ⦃rt : Runtime⦄ where
  -- The tests behind the advance of the number, and the message.
  sent_row :
      (e : Event) (id : String) (c : Clock) (db : Database) (r : SubscriptionRow)
      → find (with_id (rt.uuid_text e.subscription_id)) db.subscriptions ≡ some r
      → InOrder db
      → (used clash : Bool)
      → exists (clashes (outbox_row e id (suc r.aggregate_sequence) c)) db.outbox ≡ clash
      → InOrder
          ((ensure (not used) conflict
              >> (ensure (not clash) (internal "insert subscription outbox")
                  >> write_outbox (λ os. os ++ outbox_row e id (suc r.aggregate_sequence) c ∷ [])))
            (record db {
              subscriptions =
                  update_where (with_id (rt.uuid_text e.subscription_id)) advanced db.subscriptions;
            })).1
  unfolding transactions
  sent_row e id c db r hit i true clash fresh =
      update_subscriptions-Ordered _ advanced (λ s. refl) (λ s. omega arith) i
  sent_row e id c db r hit i false true fresh =
      update_subscriptions-Ordered _ advanced (λ s. refl) (λ s. omega arith) i
  sent_row e id c db r hit i false false fresh =
      send-Ordered i (outbox_row e id (suc r.aggregate_sequence) c) hit refl fresh refl

  sent :
      (e : Event) (id : String) (c : Clock) (db : Database)
      → InOrder db
      → InOrder (insert_outbox e (some id) c db).1
  unfolding insert_outbox transactions
  sent e id c db i =
      elim (Option-cases (find (with_id (rt.uuid_text e.subscription_id)) db.subscriptions)) [
        | inl miss ↦ rw (miss, rows_or, bind) i
        | inr (r, hit) ↦ rw (hit, rows_or, bind) (sent_row e id c db r hit i _ _ refl)
      ]

  -- A message is sent under the next number of its aggregate, or not at all.
  pub insert_outbox-InOrder :
      (e : Event) (uuid : Option String) (c : Clock) → Keeps InOrder (insert_outbox e uuid c)
  unfolding insert_outbox transactions
  insert_outbox-InOrder e none c = record { at = λ db i. i }
  insert_outbox-InOrder e (some id) c = record { at = sent e id c }

  pub complete_outbox-InOrder : (now : ℕ) (id : String) → Keeps InOrder (complete_outbox now id)
  unfolding complete_outbox transactions
  complete_outbox-InOrder now id = record { at = λ db i. complete-Ordered i (rt.uuid_text id) now }

  pub retry_outbox-InOrder :
      (now : ℕ) (id : String) (delay : ℤ) → Keeps InOrder (retry_outbox now id delay)
  unfolding retry_outbox transactions
  retry_outbox-InOrder now id delay = record {
    at = λ db i. retry-Ordered i (rt.uuid_text id) now delay;
  }

  created :
      (id user_id : String) (now : ℕ) (db : Database)
      → InOrder db
      → (known used : Bool) → exists (with_id (rt.uuid_text id)) db.subscriptions ≡ used
      → InOrder
          (branch known
            (return false)
            (ensure (not used) (internal "create subscription")
              >> (write_subscriptions (λ rs. rs ++ new_subscription id user_id now ∷ [])
                  >> return true))
            db).1
  unfolding transactions
  created id user_id now db i true used fresh = i
  created id user_id now db i false true fresh = i
  created id user_id now db i false false fresh =
      create-Ordered i (new_subscription id user_id now) fresh

  create_subscription-InOrder :
      (id user_id : String) (now : ℕ) → Keeps InOrder (create_subscription id user_id now)
  unfolding create_subscription transactions
  create_subscription-InOrder id user_id now = record {
    at = λ db i. created id user_id now db i _ _ refl;
  }

  pub get_or_create_subscription-InOrder :
      (user_id : String) (uuid : Option String) (now : ℕ)
      → Keeps InOrder (get_or_create_subscription user_id uuid now)
  unfolding get_or_create_subscription
  get_or_create_subscription-InOrder user_id uuid now =
      search (keeps_rules, create_subscription-InOrder) depth 12

claimed_row :
    (now lease : ℕ) (db : Database)
    → InOrder db
    → (o : Option OutboxRow)
    → head_option (sort_by sent_before (select (claimable now db.outbox) db.outbox)) ≡ o
    → InOrder (maybe o (return none) (lease_outbox now lease) db).1
unfolding lease_outbox transactions
claimed_row now lease db i none e = i
claimed_row now lease db i (some c) e =
    let (m, h) = In-head_select (claimable now db.outbox) sent_before db.outbox e in
    claim-Ordered i c now lease m h

pub claim_outbox-InOrder : (now lease : ℕ) → Keeps InOrder (claim_outbox now lease)
unfolding claim_outbox transactions
claim_outbox-InOrder now lease = record { at = λ db i. claimed_row now lease db i _ refl }
