-- ===== src/Subscription/Due/Progress.antt =====
-- A due transition that is completed is not due any more.
use vpn_platform.Prelude.{
  ℕ, ◌≡◌, refl, ap, String, Bool, false, Option, none, some, ok, List, find, update_where, arith,
  ltb, leb, ◌&&◌, ◌==◌,
}
use vpn_platform.Prelude.Tables.{find-passes}
use vpn_platform.Prelude.Tables.Members.{find-update_where, update_row}
use vpn_platform.Subscription.Types.{internal}
use vpn_platform.Subscription.Schema.{Runtime, Database, SubscriptionRow, OutboxRow}
use vpn_platform.Subscription.Transaction.{
  return, Clock, transactions, write_outbox, write_subscriptions, maybe, rows_or, bind, ◌>>◌, ◌>>=◌,
}
use vpn_platform.Subscription.Transaction.Keeps.{Keeps, keeps_rules}
use vpn_platform.Store.Ends.{Gives, step-Gives, ensure-Gives, settle-Gives, Gives-ok}
use vpn_platform.Subscription.Entitlement.{EntitlementState, calculate_entitlement}
use vpn_platform.Subscription.Entitlement.Bounds.{IsLive, calculate_entitlement-IsLive}
use vpn_platform.Subscription.Outbox.{Event, insert_outbox, with_id, advanced}
use vpn_platform.Subscription.Payment.{update_subscription, updated}
use vpn_platform.Subscription.Due.{is_due, expired_row, expire, advance, complete_due}

-- The subscription is there.
record Present (id : String) (db : Database) : Type 0 where
  row : SubscriptionRow
  found : find (with_id id) db.subscriptions ≡ some row

-- It is there, and the worker has nothing to do on it at that instant.
pub record NotDue (id : String) (now : ℕ) (db : Database) : Type 0 where
  pub row : SubscriptionRow
  pub found : find (with_id id) db.subscriptions ≡ some row
  pub settled : is_due now row ≡ false

write_outbox-Present :
    (id : String) (f : List OutboxRow → List OutboxRow) → Keeps (Present id) (write_outbox f)
unfolding transactions
write_outbox-Present id f = record { at = λ db i. record { row = i.row; found = i.found } }

write_subscriptions-Present :
    (id : String) (p : SubscriptionRow → Bool) (f : SubscriptionRow → SubscriptionRow)
    → ((s : SubscriptionRow) → (f s).id ≡ s.id)
    → Keeps (Present id) (write_subscriptions (update_where p f))
unfolding transactions
write_subscriptions-Present id p f e = record {
  at = λ db i. record {
    row = update_row p f i.row;
    found =
        find-update_where (with_id id) p f db.subscriptions (λ s. ap (λ j. j == id) (e s)) i.found;
  };
}

-- The last write of a transition settles the row.
write-NotDue :
    (id : String) (now : ℕ) (f : SubscriptionRow → SubscriptionRow) (db : Database)
    → ((s : SubscriptionRow) → (f s).id ≡ s.id)
    → ((s : SubscriptionRow) → is_due now (f s) ≡ false)
    → Present id db
    → Gives
        (λ (u : Unit {0}) d. NotDue id now d)
        (write_subscriptions (update_where (with_id id) f) db)
unfolding transactions
write-NotDue id now f db e due i = record {
  row = update_row (with_id id) f i.row;
  found =
      find-update_where (with_id id) (with_id id) f db.subscriptions (λ s. ap (λ j. j == id) (e s))
        i.found;
  settled = ground (arith, due i.row, find-passes (with_id id) db.subscriptions i.found);
}

module _ ⦃rt : Runtime⦄ (id : String) (s : SubscriptionRow) (uuid : Option String) (c : Clock) where
  abbrev Settled : Unit {0} → Database → Type 0
  Settled u db = NotDue (rt.uuid_text id) c.now db

  insert_outbox-Present : (e : Event) → Keeps (Present (rt.uuid_text id)) (insert_outbox e uuid c)
  unfolding insert_outbox
  insert_outbox-Present e =
      search
        (keeps_rules, write_outbox-Present _, write_subscriptions-Present _ _ advanced (λ r. refl))
        depth 16

  expire-NotDue :
      (db : Database) → Present (rt.uuid_text id) db → Gives Settled (expire id s uuid c db)
  unfolding expire ◌>>◌
  expire-NotDue db i =
      step-Gives Settled (Present (rt.uuid_text id)) _ _ db
        (search (keeps_rules, insert_outbox-Present)) i
        (λ u d k.
          write-NotDue (rt.uuid_text id) c.now (expired_row c.now) d (λ r. refl) (λ r. refl) k)

  updated_later :
      (e : EntitlementState) (r : SubscriptionRow)
      → IsLive c.now e
      → is_due c.now (updated e.status e.start e.end e.grace_end e.next c.now r) ≡ false
  updated_later e r live = ground (arith, live.scheduled, live.ahead)

  update_subscription-NotDue :
      (e : EntitlementState) (db : Database)
      → IsLive c.now e
      → Present (rt.uuid_text id) db
      → Gives Settled (update_subscription id e.status e.start e.end e.grace_end e.next c.now db)
  unfolding update_subscription ◌>>◌ ◌>>=◌
  update_subscription-NotDue e db live i =
      ensure-Gives Settled (ltb e.start e.end && leb e.end e.grace_end)
        (internal "update subscription state")
        (write_subscriptions (
          update_where (with_id (rt.uuid_text id))
            (updated e.status e.start e.end e.grace_end e.next c.now)))
        db
        (λ dates.
          write-NotDue (rt.uuid_text id) c.now
            (updated e.status e.start e.end e.grace_end e.next c.now) db (λ r. refl)
            (λ r. updated_later e r live) i)

  advance-NotDue :
      (e : EntitlementState) (db : Database)
      → IsLive c.now e
      → Present (rt.uuid_text id) db
      → Gives Settled (advance id s e uuid c db)
  unfolding advance ◌>>◌
  advance-NotDue e db live i =
      step-Gives Settled (Present (rt.uuid_text id)) _ _ db
        (search (keeps_rules, insert_outbox-Present)) i
        (λ u d k.
          step-Gives Settled (Present (rt.uuid_text id)) _ _ d
            (search (keeps_rules, insert_outbox-Present)) k
            (λ v d2 k2.
              step-Gives Settled (Present (rt.uuid_text id)) _ _ d2
                (search (keeps_rules, insert_outbox-Present)) k2
                (λ w d3 k3. update_subscription-NotDue e d3 live k3)))

  maybe-NotDue :
      (left : Option EntitlementState) (db : Database)
      → ((e : EntitlementState) → left ≡ some e → IsLive c.now e)
      → Present (rt.uuid_text id) db
      → Gives Settled (maybe left (expire id s uuid c) (λ e. advance id s e uuid c) db)
  unfolding maybe
  maybe-NotDue none db live i = expire-NotDue db i
  maybe-NotDue (some e) db live i = advance-NotDue e db (live e refl) i

  leased-NotDue :
      (lease : Option ℕ) (until : ℕ) (left : Option EntitlementState) (db : Database)
      → lease ≡ some until
      → ((e : EntitlementState) → left ≡ some e → IsLive c.now e)
      → Present (rt.uuid_text id) db
      → Gives Settled (
          maybe lease
            (return tt)
            (λ t. maybe left (expire id s uuid c) (λ e. advance id s e uuid c))
            db)
  unfolding maybe
  leased-NotDue none until left db h live i = cc
  leased-NotDue (some t) until left db h live i = maybe-NotDue left db live i

  complete_due-Gives :
      (until : ℕ) (db : Database)
      → find (with_id (rt.uuid_text id)) db.subscriptions ≡ some s
      → s.transition_lease_until ≡ some until
      → Gives Settled (complete_due id uuid c db)
  unfolding complete_due transactions
  complete_due-Gives until db found leased = settle-Gives Settled db _ (
      rw (found, rows_or, bind)
        (leased-NotDue s.transition_lease_until until
          (calculate_entitlement db.periods (rt.uuid_text id) c.now) db leased
          (λ e h. calculate_entitlement-IsLive db.periods (rt.uuid_text id) c.now h)
          (record { row = s; found = found })))

  -- When the transition of a subscription that was leased is completed, the subscription is still
  -- there and is not due at that instant: the worker does not come back to it at once.
  pub complete_due-NotDue :
      (until : ℕ) (db after : Database)
      → find (with_id (rt.uuid_text id)) db.subscriptions ≡ some s
      → s.transition_lease_until ≡ some until
      → complete_due id uuid c db ≡ (ok tt, after)
      → NotDue (rt.uuid_text id) c.now after
  complete_due-NotDue until db after found leased e =
      Gives-ok Settled (complete_due id uuid c db) tt after e
        (complete_due-Gives until db found leased)
