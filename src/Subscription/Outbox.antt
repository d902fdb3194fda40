-- ===== src/Subscription/Outbox.antt =====
-- The outbox of services/subscription/internal/postgres/store.go: `insertOutbox`,
-- `buildEventPayload`, `ClaimOutbox`, `CompleteOutbox` and `RetryOutbox`. The JSON of an event stands
-- as the values that it encodes.
pub mod Ordering
use vpn_platform.Prelude.{
  ℕ, suc, ◌+◌, String, Bool, true, false, not, ◌&&◌, ◌||◌, Option, none, some, List, [], ◌∷◌, ◌++◌,
  leb, ltb, eqb, ◌==◌, if◌then◌else◌, find, select, update_where, exists, sort_by, head_option,
}
use vpn_platform.Prelude.Int.{ℤ}
use vpn_platform.Prelude.Text.{codes, ltb_codes, concat}
use vpn_platform.Subscription.Types.{conflict, internal}
use vpn_platform.Subscription.Schema.{
  Runtime, SubscriptionRow, OutboxRow, OutboxState, pending, processing, published, Envelope,
  EventData,
}
use vpn_platform.Subscription.Transaction.{
  write_subscriptions, write_outbox, maybe, Tx, ◌>>=◌, ◌>>◌, return, get, put, ensure, rows_or,
  Clock, random_uuid, add_duration,
}
use vpn_platform.Subscription.Inbox.{lease_free}

abbrev pub with_id : String → SubscriptionRow → Bool
with_id id r = r.id == id

-- An outgoing event, as the callers of `insertOutbox` describe it.
pub record Event : Type 0 where
  pub topic : String
  pub subscription_id : String
  pub user_id : String
  pub dedupe_key : String
  pub correlation_id : String
  pub causation_id : Option String
  pub occurred_at : ℕ
  pub content : EventData

-- `buildEventPayload`: an event without a correlation is its own.
unfoldable pub build_event_payload : Event → String → ℕ → Envelope
build_event_payload e event_id sequence = record {
  event_id = event_id;
  event_type = e.topic;
  schema_version = 1;
  occurred_at = e.occurred_at;
  producer = "subscription-service";
  correlation_id = if e.correlation_id == "" then event_id else e.correlation_id;
  causation_id = e.causation_id;
  aggregate_type = "subscription";
  aggregate_id = e.subscription_id;
  aggregate_sequence = sequence;
  partition_key = concat "user:" e.user_id;
  event_data = e.content;
}

-- `aggregate_sequence = aggregate_sequence + 1`.
abbrev pub advanced : SubscriptionRow → SubscriptionRow
advanced r = record r { aggregate_sequence = suc r.aggregate_sequence }

-- The primary key and `outbox_aggregate_sequence_unique`.
abbrev pub clashes : OutboxRow → OutboxRow → Bool
clashes a b =
    a.event_id == b.event_id
    || (a.aggregate_id == b.aggregate_id && eqb a.aggregate_sequence b.aggregate_sequence)

abbrev pub is_published : OutboxState → Bool
is_published published = true
is_published _ = false

abbrev pub is_processing : OutboxState → Bool
is_processing processing = true
is_processing _ = false

-- `prior.aggregate_id = o.aggregate_id AND prior.aggregate_sequence < … AND prior.state <> …`.
abbrev pub blocks : OutboxRow → OutboxRow → Bool
blocks o prior =
    prior.aggregate_id == o.aggregate_id
    && (ltb prior.aggregate_sequence o.aggregate_sequence && not (is_published prior.state))

abbrev pub claimable : ℕ → List OutboxRow → OutboxRow → Bool
claimable now rows o =
    not (is_published o.state)
    && (leb o.next_attempt_at now && (lease_free o.lease_until now && not (exists (blocks o) rows)))

-- `ORDER BY o.created_at, o.aggregate_id, o.aggregate_sequence`.
abbrev pub sent_before : OutboxRow → OutboxRow → Bool
sent_before a b =
    ltb a.created_at b.created_at
    || (eqb a.created_at b.created_at
        && (ltb_codes (codes a.aggregate_id) (codes b.aggregate_id)
            || (a.aggregate_id == b.aggregate_id && ltb a.aggregate_sequence b.aggregate_sequence)))

abbrev pub claimed : ℕ → ℕ → OutboxRow → OutboxRow
claimed now lease o = record o {
  state = processing;
  lease_until = some (now + lease);
  attempts = o.attempts + 1;
}

abbrev pub with_event : String → OutboxRow → Bool
with_event id o = o.event_id == id

unfoldable pub lease_outbox : ℕ → ℕ → OutboxRow → Tx (Option OutboxRow)
lease_outbox now lease o = do
  write_outbox (update_where (with_event o.event_id) (claimed now lease))
  return (some (claimed now lease o))

unfoldable pub claim_outbox : ℕ → ℕ → Tx (Option OutboxRow)
claim_outbox now lease = do
  rows ← get (λ db. db.outbox)
  maybe (head_option (sort_by sent_before (select (claimable now rows) rows))) (return none)
      (lease_outbox now lease)

-- `WHERE event_id = $1 AND state = 'processing'`.
abbrev pub in_flight : String → OutboxRow → Bool
in_flight id o = o.event_id == id && is_processing o.state

abbrev pub completed : ℕ → OutboxRow → OutboxRow
completed now o = record o { state = published; lease_until = none; published_at = some now }

abbrev pub retried : ℕ → ℤ → OutboxRow → OutboxRow
retried now delay o = record o {
  state = pending;
  lease_until = none;
  next_attempt_at = add_duration now delay;
}

module _ ⦃rt : Runtime⦄ where
  abbrev pub outbox_row : Event → String → ℕ → Clock → OutboxRow
  outbox_row e event_id sequence clock = record {
    event_id = rt.uuid_text event_id;
    topic = e.topic;
    partition_key = concat "user:" e.user_id;
    aggregate_id = rt.uuid_text e.subscription_id;
    aggregate_sequence = sequence;
    dedupe_key = e.dedupe_key;
    payload = build_event_payload e event_id sequence;
    state = pending;
    attempts = 0;
    next_attempt_at = clock.started_at;
    lease_until = none;
    created_at = clock.started_at;
    published_at = none;
  }

  unfoldable pub insert_outbox : Event → Option String → Clock → Tx (Unit {0})
  insert_outbox e uuid clock = do
    event_id ← random_uuid uuid
    rows ← get (λ db. db.subscriptions)
    r ←
        rows_or (internal "advance subscription aggregate sequence")
          (find (with_id (rt.uuid_text e.subscription_id)) rows)
    write_subscriptions (update_where (with_id (rt.uuid_text e.subscription_id)) advanced)
    let row = outbox_row e event_id (suc r.aggregate_sequence) clock
    sent ← get (λ db. db.outbox)
    ensure (not (exists (λ o. o.dedupe_key == row.dedupe_key) sent)) conflict
    ensure (not (exists (clashes row) sent)) (internal "insert subscription outbox")
    write_outbox (λ os. os ++ row ∷ [])

  unfoldable pub complete_outbox : ℕ → String → Tx (Unit {0})
  complete_outbox now event_id =
      write_outbox (update_where (in_flight (rt.uuid_text event_id)) (completed now))

  unfoldable pub retry_outbox : ℕ → String → ℤ → Tx (Unit {0})
  retry_outbox now event_id delay =
      write_outbox (update_where (in_flight (rt.uuid_text event_id)) (retried now delay))
