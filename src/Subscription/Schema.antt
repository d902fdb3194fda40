-- ===== src/Subscription/Schema.antt =====
-- The tables of services/subscription (services/subscription/migrations), as the statements of
-- services/subscription/internal/postgres/store.go see them, and what the store
-- takes from outside.
use vpn_platform.Prelude.{ℕ, String, Option, List, ◌≡◌}
use vpn_platform.Prelude.Int.{ℤ}
use vpn_platform.Subscription.Types.{Status, RefundSucceeded}

-- What the store takes from PostgreSQL and from Go's `time`: a `uuid` column gives back the canonical
-- text of the text that was stored, and `Format(time.RFC3339Nano)` gives the text of an instant.
pub record Runtime : Type 0 where
  pub uuid_text : String → String
  pub uuid_text_idem : (s : String) → uuid_text (uuid_text s) ≡ uuid_text s
  pub rfc3339_nano : ℕ → String

pub record SubscriptionRow : Type 0 where
  pub id : String
  pub user_id : String
  pub status : Status
  pub current_period_start : Option ℕ
  pub current_period_end : Option ℕ
  pub grace_ends_at : Option ℕ
  pub next_transition_at : Option ℕ
  pub transition_lease_until : Option ℕ
  pub aggregate_sequence : ℕ
  pub created_at : ℕ
  pub updated_at : ℕ

pub data PeriodStatus : Type 0 where
  paid refunded : PeriodStatus

pub record PeriodRow : Type 0 where
  pub id : String
  pub subscription_id : String
  pub source_order_id : String
  pub source_payment_id : String
  pub plan_id : String
  pub region : String
  pub primary_nodes : ℤ
  pub failover_nodes : ℤ
  pub amount_minor : ℤ
  pub currency : String
  pub duration_days : ℤ
  pub grace_period_hours : ℤ
  pub paid_at : ℕ
  pub period_start : ℕ
  pub period_end : ℕ
  pub grace_ends_at : ℕ
  pub status : PeriodStatus
  pub refund_id : Option String
  pub refunded_at : Option ℕ

pub data InboxState : Type 0 where
  pending processing processed dead : InboxState

-- The four columns that `inbox_source_metadata_complete` keeps together.
pub record SourceRecord : Type 0 where
  pub topic : String
  pub partition : ℤ
  pub offset : ℤ
  pub payload_sha256 : String

pub record InboxRow : Type 0 where
  pub event_id : String
  pub event_type : String
  pub aggregate_id : String
  pub source_payment_id : String
  pub user_id : String
  pub correlation_id : String
  pub payload : Option RefundSucceeded
  pub state : InboxState
  pub attempts : ℕ
  pub next_attempt_at : ℕ
  pub lease_until : Option ℕ
  pub last_error_code : Option String
  pub received_at : ℕ
  pub processed_at : Option ℕ
  pub source : Option SourceRecord

-- The data of an outgoing event: `periodEventData`, `terminalEventData`, `graceStartedEventData`.
pub data EventData : Type 0 where
  period_event :
      (subscription_id user_id period_id source_order_id source_payment_id : String)
      (period_start period_end grace_ends_at : ℕ)
      → EventData
  terminal_event :
      (subscription_id user_id reason : String) (affected_period_ids : List String)
      (effective_at : ℕ)
      → EventData
  grace_started_event :
      (subscription_id user_id : String) (period_end grace_ends_at effective_at : ℕ) → EventData

-- `platformkafka.Envelope`, as `buildEventPayload` fills it in.
pub record Envelope : Type 0 where
  pub event_id : String
  pub event_type : String
  pub schema_version : ℕ
  pub occurred_at : ℕ
  pub producer : String
  pub correlation_id : String
  pub causation_id : Option String
  pub aggregate_type : String
  pub aggregate_id : String
  pub aggregate_sequence : ℕ
  pub partition_key : String
  pub event_data : EventData

pub data OutboxState : Type 0 where
  pending processing published : OutboxState

pub record OutboxRow : Type 0 where
  pub event_id : String
  pub topic : String
  pub partition_key : String
  pub aggregate_id : String
  pub aggregate_sequence : ℕ
  pub dedupe_key : String
  pub payload : Envelope
  pub state : OutboxState
  pub attempts : ℕ
  pub next_attempt_at : ℕ
  pub lease_until : Option ℕ
  pub created_at : ℕ
  pub published_at : Option ℕ

pub record DeadLetterRow : Type 0 where
  pub topic : String
  pub partition : ℤ
  pub record_offset : ℤ
  pub payload_sha256 : String
  pub reason_code : String

pub record AdminRevokeRow : Type 0 where
  pub idempotency_key : String
  pub request_sha256 : String
  pub action_id : String
  pub correlation_id : String
  pub subscription_id : String
  pub reason_code : String
  pub result_status : Status
  pub completed_at : ℕ

pub record Database : Type 0 where
  pub subscriptions : List SubscriptionRow
  pub periods : List PeriodRow
  pub inbox : List InboxRow
  pub outbox : List OutboxRow
  pub dead_letters : List DeadLetterRow
  pub admin_revokes : List AdminRevokeRow
