-- ===== src/Subscription/Inbox.antt =====
-- The inbox of services/subscription/internal/postgres/store.go: `insertInbox`,
-- `markInboxProcessed`, `deadLetterInbox`, `ClaimRefund` and `RecordDeadLetter`.
pub mod Replay
pub mod Insertion
pub mod Kept
use vpn_platform.Prelude.{
  ℕ, ◌+◌, String, Bool, true, false, not, ◌&&◌, Option, none, some, [], ◌∷◌, ◌++◌, leb, ltb, ◌==◌,
  find, select, update_where, exists, sort_by, head_option,
}
use vpn_platform.Prelude.Int.{eqb_ℤ}
use vpn_platform.Subscription.Types.{conflict, internal, EventMeta, RefundSucceeded, RefundWork}
use vpn_platform.Subscription.Schema.{
  Runtime, InboxRow, InboxState, pending, processing, processed, dead, SourceRecord, DeadLetterRow,
}
use vpn_platform.Subscription.Transaction.{
  write_inbox, write_dead_letters, branch, maybe, Tx, ◌>>=◌, ◌>>◌, return, throw, get, ensure,
  rows_or, Clock,
}

-- `inbox_source_record_idx`: the source record of an event is unique.
abbrev pub same_record : SourceRecord → SourceRecord → Bool
same_record a b = a.topic == b.topic && (eqb_ℤ a.partition b.partition && eqb_ℤ a.offset b.offset)

abbrev pub has_record : SourceRecord → InboxRow → Bool
has_record s r = elim r.source [ none ↦ false | some t ↦ same_record t s ]

abbrev pub source_of : EventMeta → SourceRecord
source_of meta = record {
  topic = meta.source_topic;
  partition = meta.source_partition;
  offset = meta.source_offset;
  payload_sha256 = meta.payload_sha256;
}

abbrev pub is_none : {A : Type 0} → Option A → Bool
is_none none = true
is_none (some a) = false

abbrev pub is_open : InboxState → Bool
is_open pending = true
is_open processing = true
is_open _ = false

-- `lease_until IS NULL OR lease_until <= now`.
abbrev pub lease_free : Option ℕ → ℕ → Bool
lease_free none now = true
lease_free (some t) now = leb t now

abbrev pub has_event : String → InboxRow → Bool
has_event id r = r.event_id == id

-- The comparison of a stored event with a replayed one, in Go, on the texts of the columns.
abbrev pub same_event : InboxRow → SourceRecord → EventMeta → String → String → Bool
same_event r s meta payment_id user_id =
    r.event_type == meta.event_type
    && (r.aggregate_id == meta.aggregate_id
        && (r.source_payment_id == payment_id
            && (r.user_id == user_id
                && (r.correlation_id == meta.correlation_id
                    && s.payload_sha256 == meta.payload_sha256))))

-- The replay of an event that the inbox holds.
unfoldable pub check_replay : InboxRow → Option SourceRecord → EventMeta → String → String → Tx Bool
check_replay r none meta payment_id user_id = throw (internal "load subscription inbox replay")
check_replay r (some s) meta payment_id user_id = do
  ensure (same_event r s meta payment_id user_id) conflict
  return false

abbrev pub processed_row : ℕ → InboxRow → InboxRow
processed_row now r = record r {
  state = processed;
  payload = none;
  lease_until = none;
  processed_at = some now;
  last_error_code = none;
}

abbrev pub dead_row : ℕ → String → InboxRow → InboxRow
dead_row now reason r = record r {
  state = dead;
  payload = none;
  lease_until = none;
  processed_at = some now;
  last_error_code = some reason;
}

abbrev pub dead_letter : SourceRecord → String → DeadLetterRow
dead_letter s reason = record {
  topic = s.topic;
  partition = s.partition;
  record_offset = s.offset;
  payload_sha256 = s.payload_sha256;
  reason_code = reason;
}

abbrev pub is_letter_of : SourceRecord → DeadLetterRow → Bool
is_letter_of s d =
    d.topic == s.topic && (eqb_ℤ d.partition s.partition && eqb_ℤ d.record_offset s.offset)

-- `ON CONFLICT DO NOTHING`, with the number of rows.
unfoldable pub insert_dead_letter : SourceRecord → String → Tx Bool
insert_dead_letter s reason = do
  letters ← get (λ db. db.dead_letters)
  branch (exists (is_letter_of s) letters) (return false)
      (do write_dead_letters (λ ds. ds ++ dead_letter s reason ∷ []); return true)

-- `RecordDeadLetter`.
unfoldable pub record_dead_letter : SourceRecord → String → Tx (Unit {0})
record_dead_letter s reason = insert_dead_letter s reason >>= λ _. return tt

abbrev pub claimable_refund : ℕ → InboxRow → Bool
claimable_refund now r =
    r.event_type == "billing.refund.succeeded.v1"
    && (is_open r.state && (leb r.next_attempt_at now && lease_free r.lease_until now))

abbrev pub claimed_row : ℕ → ℕ → InboxRow → InboxRow
claimed_row now lease r = record r {
  state = processing;
  lease_until = some (now + lease);
  attempts = r.attempts + 1;
}

-- The metadata that `ClaimRefund` reads back; the other fields keep Go's zero values.
abbrev pub work_meta : InboxRow → SourceRecord → EventMeta
work_meta r s = record {
  event_id = r.event_id;
  event_type = r.event_type;
  aggregate_id = r.aggregate_id;
  correlation_id = r.correlation_id;
  causation_id = none;
  occurred_at = 0;
  source_topic = s.topic;
  source_partition = s.partition;
  source_offset = s.offset;
  payload_sha256 = s.payload_sha256;
}

unfoldable pub lease_refund : ℕ → ℕ → InboxRow → Tx (Option RefundWork)
lease_refund now lease r = do
  write_inbox (update_where (has_event r.event_id) (claimed_row now lease))
  s ← rows_or (internal "claim refund inbox") r.source
  refund ← rows_or (internal "decode normalized refund") r.payload
  return (
      some (record {
        inbox_id = r.event_id;
        meta = work_meta r s;
        refund = refund;
        attempts = r.attempts + 1;
      }))

-- One statement, and the reading of its row, which may fail after the statement has run.
unfoldable pub claim_refund : ℕ → ℕ → Tx (Option RefundWork)
claim_refund now lease = do
  rows ← get (λ db. db.inbox)
  let due = sort_by (λ a b. ltb a.received_at b.received_at) (select (claimable_refund now) rows)
  maybe (head_option due) (return none) (lease_refund now lease)

module _ ⦃rt : Runtime⦄ where
  -- The row that `INSERT INTO inbox` writes.
  abbrev pub inbox_row :
      EventMeta → String → String → Option RefundSucceeded → InboxState → Clock → InboxRow
  inbox_row meta payment_id user_id payload state clock = record {
    event_id = rt.uuid_text meta.event_id;
    event_type = meta.event_type;
    aggregate_id = rt.uuid_text meta.aggregate_id;
    source_payment_id = rt.uuid_text payment_id;
    user_id = rt.uuid_text user_id;
    correlation_id = rt.uuid_text meta.correlation_id;
    payload = payload;
    state = state;
    attempts = 0;
    next_attempt_at = clock.started_at;
    lease_until = none;
    last_error_code = none;
    received_at = clock.started_at;
    processed_at = none;
    source = some (source_of meta);
  }

  -- The WHERE of `ON CONFLICT (event_id) DO UPDATE`.
  abbrev pub adoptable : InboxRow → EventMeta → String → String → Bool
  adoptable r meta payment_id user_id =
      is_none r.source
      && (r.event_type == meta.event_type
          && (r.aggregate_id == rt.uuid_text meta.aggregate_id
              && (r.source_payment_id == rt.uuid_text payment_id
                  && (r.user_id == rt.uuid_text user_id
                      && r.correlation_id == rt.uuid_text meta.correlation_id))))

  -- `insertInbox` where the event is stored already.
  unfoldable pub insert_inbox_known : InboxRow → EventMeta → String → String → Tx Bool
  insert_inbox_known r meta payment_id user_id =
      branch (adoptable r meta payment_id user_id)
        (do
          rows ← get (λ db. db.inbox)
          ensure (not (exists (has_record (source_of meta)) rows))
              (internal "insert subscription inbox")
          write_inbox (
              update_where (has_event (rt.uuid_text meta.event_id))
                (λ x. record x { source = some (source_of meta) }))
          return true)
        (check_replay r r.source meta payment_id user_id)

  -- `insertInbox` of an event that is new.
  unfoldable pub insert_inbox_new :
      EventMeta → String → String → Option RefundSucceeded → InboxState → Clock → Tx Bool
  insert_inbox_new meta payment_id user_id payload state clock = do
    rows ← get (λ db. db.inbox)
    ensure (not (exists (has_record (source_of meta)) rows)) (internal "insert subscription inbox")
    write_inbox (λ rs. rs ++ inbox_row meta payment_id user_id payload state clock ∷ [])
    return true

  unfoldable pub insert_inbox :
      EventMeta → String → String → Option RefundSucceeded → InboxState → Clock → Tx Bool
  insert_inbox meta payment_id user_id payload state clock = do
    rows ← get (λ db. db.inbox)
    maybe (find (has_event (rt.uuid_text meta.event_id)) rows)
        (insert_inbox_new meta payment_id user_id payload state clock)
        (λ r. insert_inbox_known r meta payment_id user_id)

  unfoldable pub mark_inbox_processed : String → ℕ → Tx (Unit {0})
  mark_inbox_processed event_id now =
      write_inbox (update_where (has_event (rt.uuid_text event_id)) (processed_row now))

  -- The first statement of `RecordPaymentReplay` after the insertion.
  unfoldable pub set_processed_at : String → ℕ → Tx (Unit {0})
  set_processed_at event_id now =
      write_inbox (
        update_where (has_event (rt.uuid_text event_id))
          (λ r. record r { processed_at = some now }))

  unfoldable pub dead_letter_inbox : String → ℕ → String → Tx (Unit {0})
  dead_letter_inbox event_id now reason = do
    rows ← get (λ db. db.inbox)
    write_inbox (update_where (has_event (rt.uuid_text event_id)) (dead_row now reason))
    r ←
        rows_or (internal "dead-letter subscription inbox")
          (find (has_event (rt.uuid_text event_id)) rows)
    s ← rows_or (internal "dead-letter subscription inbox") r.source
    inserted ← insert_dead_letter s reason
    ensure inserted (internal "dead-letter subscription inbox")
