-- ===== src/Subscription/Types.antt =====
-- services/subscription/internal/domain/types.go: the values that the parts exchange.
-- An instant is a count of nanoseconds since the zero `time.Time`.
use vpn_platform.Prelude.{ℕ, Bool, String, Option}
use vpn_platform.Prelude.Int.{ℤ}

pub data Error : Type 0 where
  not_found conflict idempotency_conflict admin_revoke_not_allowed : Error
  contract : String → Error  -- application.ContractError with its code
  internal : String → Error  -- any other error, by its message

pub data Status : Type 0 where
  pending active grace expired revoked : Status

pub Status-discrete : Discrete Status
Status-discrete = hlevel

pub record EventMeta : Type 0 where
  pub event_id : String
  pub event_type : String
  pub aggregate_id : String
  pub correlation_id : String
  pub causation_id : Option String
  pub occurred_at : ℕ
  pub source_topic : String
  pub source_partition : ℤ
  pub source_offset : ℤ
  pub payload_sha256 : String

pub record PaymentSucceeded : Type 0 where
  pub payment_id : String
  pub order_id : String
  pub user_id : String
  pub plan_id : String
  pub amount_minor : ℤ
  pub currency : String
  pub paid_at : ℕ

pub record RefundSucceeded : Type 0 where
  pub refund_id : String
  pub payment_id : String
  pub order_id : String
  pub user_id : String
  pub amount_minor : ℤ
  pub currency : String
  pub refund_scope : String
  pub refunded_at : ℕ

pub record PlanSnapshot : Type 0 where
  pub plan_id : String
  pub duration_days : ℤ
  pub grace_period_hours : ℤ
  pub amount_minor : ℤ
  pub currency : String
  pub region : String
  pub primary_nodes : ℤ
  pub failover_nodes : ℤ

pub record Order : Type 0 where
  pub order_id : String
  pub user_id : String
  pub status : String
  pub amount_minor : ℤ
  pub currency : String
  pub plan_snapshot : PlanSnapshot

pub record Subscription : Type 0 where
  pub subscription_id : String
  pub user_id : String
  pub status : Status
  pub current_period_start : Option ℕ
  pub current_period_end : Option ℕ
  pub grace_ends_at : Option ℕ

pub record Placement : Type 0 where
  pub subscription_id : String
  pub period_id : String
  pub region : String
  pub primary_nodes : ℤ
  pub failover_nodes : ℤ
  pub valid_until : ℕ

pub record AdminRevokeInput : Type 0 where
  pub subscription_id : String
  pub idempotency_key : String
  pub request_sha256 : String
  pub action_id : String
  pub correlation_id : String
  pub reason_code : String

pub record AdminRevokeResult : Type 0 where
  pub subscription_id : String
  pub status : Status
  pub reason_code : String
  pub replay : Bool

pub record RefundWork : Type 0 where
  pub inbox_id : String
  pub meta : EventMeta
  pub refund : RefundSucceeded
  pub attempts : ℕ
