-- ===== src/Subscription/Inbox/Insertion.antt =====
-- What the insertion of an event leaves in the inbox, and what keeps it there.
use vpn_platform.Prelude.{
  ◌≡◌, refl, String, Bool, true, false, not, Option, none, some, List, arith, find, update_where,
  exists, ==_self,
}
use vpn_platform.Prelude.Tables.{find-passes}
use vpn_platform.Prelude.Tables.Members.{update_row, find-update_where}
use vpn_platform.Subscription.Types.{EventMeta, RefundSucceeded, conflict}
use vpn_platform.Subscription.Schema.{Runtime, Database, InboxRow, InboxState, SourceRecord}
use vpn_platform.Subscription.Transaction.{Clock, transactions, write_inbox, branch, maybe}
use vpn_platform.Subscription.Transaction.Keeps.{Keeps}
use vpn_platform.Store.Ends.{Ends, ensure-Ends}
use vpn_platform.Subscription.Inbox.{
  has_event, same_event, source_of, adoptable, check_replay, insert_inbox_known, insert_inbox_new,
  insert_inbox, has_record,
}
use vpn_platform.Subscription.Inbox.Replay.{
  IsCanonical, Stored, inbox_row-Stored, update_inbox-Stored,
}

module _ ⦃rt : Runtime⦄ (m : EventMeta) (payment_id user_id : String) where
  unfoldable pub Holds : Database → Type 0
  Holds db = Stored m payment_id user_id db.inbox

module _ ⦃rt : Runtime⦄ (m : EventMeta) (payment_id user_id : String) where
  -- The row was there with its source.
  check_replay-Ends :
      (r : InboxRow) (source : Option SourceRecord) (db : Database)
      → find (has_event (rt.uuid_text m.event_id)) db.inbox ≡ some r
      → r.source ≡ source
      → Ends (Holds m payment_id user_id) (check_replay r source m payment_id user_id db)
  unfolding check_replay transactions Holds
  check_replay-Ends r none db f e = tt
  check_replay-Ends r (some o) db f e =
      ensure-Ends _ (same_event r o m payment_id user_id) conflict _ db
        (λ same. record { row = r; origin = o; found = f; sourced = e; same = same })

  insert_inbox_new-Ends :
      (payload : Option RefundSucceeded) (s : InboxState) (c : Clock) (db : Database)
      → IsCanonical m payment_id user_id
      → find (has_event (rt.uuid_text m.event_id)) db.inbox ≡ none
      → Ends (Holds m payment_id user_id) (insert_inbox_new m payment_id user_id payload s c db)
  unfolding insert_inbox_new transactions Holds
  insert_inbox_new-Ends payload s c db k f =
      ensure-Ends _ (not (exists (has_record (source_of m)) db.inbox)) _ _ db
        (λ fresh. inbox_row-Stored m payment_id user_id payload s c db.inbox k f)

  abbrev with_source : InboxRow → InboxRow
  with_source r = record r { source = some (source_of m) }

  -- The row was there without its source.
  with_source-Stored :
      (r : InboxRow) (rows : List InboxRow)
      → IsCanonical m payment_id user_id
      → find (has_event (rt.uuid_text m.event_id)) rows ≡ some r
      → adoptable r m payment_id user_id ≡ true
      → Stored m payment_id user_id
          (update_where (has_event (rt.uuid_text m.event_id)) with_source rows)
  with_source-Stored r rows k f e =
      let hit : has_event (rt.uuid_text m.event_id) r ≡ true = (find-passes _ rows f).0 in
      record {
        row = update_row (has_event (rt.uuid_text m.event_id)) with_source r;
        origin = source_of m;
        found =
            find-update_where _ (has_event (rt.uuid_text m.event_id)) with_source rows (λ a. refl)
              f;
        sourced = ground (arith, hit);
        same = ground (arith, hit, e, k, ==_self m.payload_sha256);
      }

  insert_inbox_known-Ends :
      (r : InboxRow) (db : Database) (b : Bool)
      → IsCanonical m payment_id user_id
      → find (has_event (rt.uuid_text m.event_id)) db.inbox ≡ some r
      → adoptable r m payment_id user_id ≡ b
      → Ends (Holds m payment_id user_id) (insert_inbox_known r m payment_id user_id db)
  unfolding insert_inbox_known transactions Holds
  insert_inbox_known-Ends r db true k f e =
      rw (e, branch)
        (ensure-Ends _ (not (exists (has_record (source_of m)) db.inbox)) _ _ db
          (λ fresh. with_source-Stored r db.inbox k f e))
  insert_inbox_known-Ends r db false k f e = rw (e, branch) (check_replay-Ends r r.source db f refl)

  insert_inbox_at :
      (payload : Option RefundSucceeded) (s : InboxState) (c : Clock) (db : Database)
      (row : Option InboxRow)
      → IsCanonical m payment_id user_id
      → find (has_event (rt.uuid_text m.event_id)) db.inbox ≡ row
      → Ends (Holds m payment_id user_id) (insert_inbox m payment_id user_id payload s c db)
  unfolding insert_inbox transactions
  insert_inbox_at payload s c db none k f = rw (f, maybe) (insert_inbox_new-Ends payload s c db k f)
  insert_inbox_at payload s c db (some r) k f =
      rw (f, maybe) (insert_inbox_known-Ends r db (adoptable r m payment_id user_id) k f refl)

  -- After a successful insertion the inbox holds the event.
  pub insert_inbox-Ends :
      (payload : Option RefundSucceeded) (s : InboxState) (c : Clock) (db : Database)
      → IsCanonical m payment_id user_id
      → Ends (Holds m payment_id user_id) (insert_inbox m payment_id user_id payload s c db)
  insert_inbox-Ends payload s c db k = insert_inbox_at payload s c db _ k refl

  -- The updates of the inbox keep it.
  pub write_inbox-Holds :
      (q : InboxRow → Bool) (f : InboxRow → InboxRow)
      → ((r : InboxRow) → (f r).event_id ≡ r.event_id)
      → ((r : InboxRow) → (f r).event_type ≡ r.event_type)
      → ((r : InboxRow) → (f r).aggregate_id ≡ r.aggregate_id)
      → ((r : InboxRow) → (f r).source_payment_id ≡ r.source_payment_id)
      → ((r : InboxRow) → (f r).user_id ≡ r.user_id)
      → ((r : InboxRow) → (f r).correlation_id ≡ r.correlation_id)
      → ((r : InboxRow) → (f r).source ≡ r.source)
      → Keeps (Holds m payment_id user_id) (write_inbox (update_where q f))
  unfolding transactions Holds
  write_inbox-Holds q f e1 e2 e3 e4 e5 e6 e7 = record {
    at = λ db i. update_inbox-Stored m payment_id user_id q f db.inbox e1 e2 e3 e4 e5 e6 e7 i;
  }
