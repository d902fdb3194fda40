-- ===== src/Subscription/Inbox/Replay.antt =====
-- What the inbox knows of an event, and the answer to its replay.
use vpn_platform.Prelude.{
  ◌≡◌, refl, ap, String, Bool, true, false, Option, none, some, List, [], ◌∷◌, ◌++◌, ok, arith,
  ◌==◌, ==_iff, ==_self, find, update_where,
}
use vpn_platform.Prelude.Tables.{find-append_miss}
use vpn_platform.Prelude.Tables.Members.{find-update_where, update_row}
use vpn_platform.Subscription.Types.{EventMeta, RefundSucceeded}
use vpn_platform.Subscription.Schema.{Runtime, Database, InboxRow, InboxState, SourceRecord}
use vpn_platform.Subscription.Transaction.{Clock, transactions, maybe}
use vpn_platform.Subscription.Inbox.{
  has_event, same_event, source_of, inbox_row, check_replay, insert_inbox_known, insert_inbox,
}

module _ ⦃rt : Runtime⦄ (m : EventMeta) (payment_id user_id : String) where
  -- The event's identifiers are canonical UUIDs, as this platform writes them.
  pub record IsCanonical : Type 0 where
    pub aggregate_text : rt.uuid_text m.aggregate_id ≡ m.aggregate_id
    pub payment_text : rt.uuid_text payment_id ≡ payment_id
    pub user_text : rt.uuid_text user_id ≡ user_id
    pub correlation_text : rt.uuid_text m.correlation_id ≡ m.correlation_id

  -- The inbox holds the event, with its source and its content.
  pub record Stored (rows : List InboxRow) : Type 0 where
    pub row : InboxRow
    pub origin : SourceRecord
    pub found : find (has_event (rt.uuid_text m.event_id)) rows ≡ some row
    pub sourced : row.source ≡ some origin
    pub same : same_event row origin m payment_id user_id ≡ true

module _ ⦃rt : Runtime⦄ (m : EventMeta) (payment_id user_id : String) where
  pub inbox_row-Stored :
      (payload : Option RefundSucceeded) (s : InboxState) (c : Clock) (rows : List InboxRow)
      → IsCanonical m payment_id user_id
      → find (has_event (rt.uuid_text m.event_id)) rows ≡ none
      → Stored m payment_id user_id (rows ++ inbox_row m payment_id user_id payload s c ∷ [])
  inbox_row-Stored payload s c rows k miss = record {
    row = inbox_row m payment_id user_id payload s c;
    origin = source_of m;
    found = find-append_miss _ rows _ miss (==_self _);
    sourced = refl;
    same = ground (
      arith,
      k,
      ==_self m.event_type,
      ==_iff (rt.uuid_text m.aggregate_id) m.aggregate_id,
      ==_iff (rt.uuid_text payment_id) payment_id,
      ==_iff (rt.uuid_text user_id) user_id,
      ==_iff (rt.uuid_text m.correlation_id) m.correlation_id,
      ==_self m.payload_sha256,
    );
  }

  -- An update of rows that keeps what identifies the event.
  pub update_inbox-Stored :
      (q : InboxRow → Bool) (f : InboxRow → InboxRow) (rows : List InboxRow)
      → ((r : InboxRow) → (f r).event_id ≡ r.event_id)
      → ((r : InboxRow) → (f r).event_type ≡ r.event_type)
      → ((r : InboxRow) → (f r).aggregate_id ≡ r.aggregate_id)
      → ((r : InboxRow) → (f r).source_payment_id ≡ r.source_payment_id)
      → ((r : InboxRow) → (f r).user_id ≡ r.user_id)
      → ((r : InboxRow) → (f r).correlation_id ≡ r.correlation_id)
      → ((r : InboxRow) → (f r).source ≡ r.source)
      → Stored m payment_id user_id rows
      → Stored m payment_id user_id (update_where q f rows)
  update_inbox-Stored q f rows e1 e2 e3 e4 e5 e6 e7 s = record {
    row = update_row q f s.row;
    origin = s.origin;
    found =
        find-update_where _ q f rows (λ a. ap (λ x. x == rt.uuid_text m.event_id) (e1 a)) s.found;
    sourced = ground (arith, e7 s.row, s.sourced);
    same = ground (arith, e2 s.row, e3 s.row, e4 s.row, e5 s.row, e6 s.row, s.same);
  }

  sourced_replay :
      (r : InboxRow) (o : SourceRecord) (source : Option SourceRecord) (db : Database)
      → r.source ≡ source
      → source ≡ some o
      → same_event r o m payment_id user_id ≡ true
      → insert_inbox_known r m payment_id user_id db ≡ (ok false, db)
  unfolding insert_inbox_known check_replay transactions
  sourced_replay r o none db e k same = ground (arith, k)
  sourced_replay r o (some p) db e k same = ground (arith, e, k, same)

  -- The replay of a stored event inserts nothing and reports so.
  pub insert_inbox-Stored :
      (payload : Option RefundSucceeded) (s : InboxState) (c : Clock) (db : Database)
      → Stored m payment_id user_id db.inbox
      → insert_inbox m payment_id user_id payload s c db ≡ (ok false, db)
  unfolding insert_inbox transactions
  insert_inbox-Stored payload s c db k =
      rw (k.found, maybe, sourced_replay k.row k.origin k.row.source db refl k.sourced k.same) refl
