-- ===== src/Notification/Schema.antt =====
-- services/notification/internal/domain/types.go and the tables of services/notification/migrations. A
-- sequence number that is missing or not positive stands as 0.
use vpn_platform.Prelude.{ℕ, Bool, String, Option, List}
use vpn_platform.Prelude.Int.{ℤ}
use vpn_platform.Store

pub data Error : Type 0 where
  not_found event_conflict sequence_gap idempotency_conflict retry_not_allowed : Error
  internal : String → Error  -- any other error, by its message

pub data Status : Type 0 where
  pending processing retry delivered permanently_failed suppressed : Status

pub record EventMeta : Type 0 where
  pub event_id : String
  pub event_type : String
  pub producer : String
  pub aggregate_type : String
  pub aggregate_id : String
  pub aggregate_sequence : ℕ
  pub correlation_id : String
  pub causation_id : Option String
  pub source_topic : String
  pub source_partition : ℤ
  pub source_offset : ℤ
  pub payload_sha256 : String

pub record Intent : Type 0 where
  pub notification_id : String
  pub user_id : String
  pub subscription_id : Option String
  pub credential_id : Option String
  pub notification_type : String
  pub template_version : ℤ
  pub business_dedupe_key : String
  pub delivery_stream_key : String
  pub delivery_sequence : ℕ
  pub supersedes_older : Bool
  pub variables : List (String × String)
  pub suppressed_reason : String
  pub max_attempts : ℤ

pub record CursorRow : Type 0 where
  pub stream_key : String
  pub last_sequence : ℕ
  pub last_event_id : String
  pub last_payload_sha256 : String

pub record InboxRow : Type 0 where
  pub event_id : String
  pub event_type : String
  pub source_topic : String
  pub source_partition : ℤ
  pub source_offset : ℤ
  pub payload_sha256 : String
  pub producer : String
  pub aggregate_type : String
  pub aggregate_id : String
  pub aggregate_sequence : ℕ
  pub business_dedupe_key : String

-- A row of `notification_jobs`, which `scanJob` reads into a `Job`.
pub record JobRow : Type 0 where
  pub notification_id : String
  pub user_id : String
  pub subscription_id : Option String
  pub credential_id : Option String
  pub notification_type : String
  pub template_version : ℤ
  pub source_event_id : String
  pub business_dedupe_key : String
  pub status : Status
  pub attempts : ℕ
  pub max_attempts : ℤ
  pub next_attempt_at : ℕ
  pub lease_until : Option ℕ
  pub claim_id : Option String
  pub terminal_reason : Option String
  pub delivered_at : Option ℕ
  pub correlation_id : String
  pub causation_id : Option String
  pub variables : List (String × String)
  pub source_producer : String
  pub source_aggregate : String
  pub source_aggregate_id : String
  pub source_sequence : ℕ
  pub delivery_stream : String
  pub delivery_sequence : ℕ
  pub supersedes_older : Bool
  pub created_at : ℕ
  pub updated_at : ℕ

pub record RequestRow : Type 0 where
  pub idempotency_key : String
  pub request_sha256 : String
  pub notification_id : String

pub record Database : Type 0 where
  pub cursors : List CursorRow
  pub inbox : List InboxRow
  pub jobs : List JobRow
  pub requests : List RequestRow

abbrev pub Tx : Type 0 → Type 0
Tx A = Store.Tx Error Database A
