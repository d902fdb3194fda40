-- ===== src/Billing/Schema.antt =====
-- The tables of services/billing (services/billing/migrations), with what their triggers and CHECKs
-- refuse, and the events of services/billing/internal/postgres/store.go.
use vpn_platform.Prelude.{
  ℕ, Bool, true, false, ◌&&◌, String, Option, none, some, List, [], leb, ◌==◌, length,
}
use vpn_platform.Prelude.Int.{ℤ, pos, ltb_ℤ}
use vpn_platform.Prelude.Text.{codes, is_upper, match_classes, times}
use vpn_platform.Billing.Types.{PlanSnapshot, OrderStatus, PaymentStatus}

pub record OrderRow : Type 0 where
  pub id : String
  pub user_id : String
  pub status : OrderStatus
  pub amount_minor : ℤ
  pub currency : String
  pub plan_id : String
  pub region : String
  pub accepted_terms_version : String
  pub plan_snapshot : PlanSnapshot
  pub created_at : ℕ
  pub updated_at : ℕ

pub record PaymentRow : Type 0 where
  pub id : String
  pub order_id : String
  pub provider : String
  pub provider_payment_id : Option String
  pub provider_idempotency_key : String
  pub status : PaymentStatus
  pub amount_minor : ℤ
  pub currency : String
  pub confirmation_url : Option String
  pub provider_create_deadline : ℕ
  pub next_reconcile_at : ℕ
  pub reconcile_lease_until : Option ℕ
  pub reconcile_attempts : ℕ
  pub last_error_code : Option String
  pub paid_at : Option ℕ
  pub canceled_at : Option ℕ
  pub created_at : ℕ
  pub updated_at : ℕ

pub data Operation : Type 0 where
  create_order create_payment : Operation

pub record IdempotencyRow : Type 0 where
  pub subject_id : String
  pub operation : Operation
  pub idempotency_key : String
  pub request_hash : String
  pub resource_id : String

pub data WebhookState : Type 0 where
  pending processing processed dead : WebhookState

pub record WebhookRow : Type 0 where
  pub id : String
  pub event_type : String
  pub provider_object_id : String
  pub observed_status : String
  pub state : WebhookState
  pub attempts : ℕ
  pub next_attempt_at : ℕ
  pub lease_until : Option ℕ
  pub last_error_code : Option String
  pub received_at : ℕ
  pub processed_at : Option ℕ

-- The data of an event, as `buildPaymentEvent` fills the maps.
pub data EventData : Type 0 where
  payment_succeeded :
      (payment_id order_id user_id plan_id : String) (amount_minor : ℤ) (currency : String)
      (paid_at : ℕ)
      → EventData
  payment_canceled : (payment_id order_id user_id : String) (canceled_at : ℕ) → EventData

-- `platformkafka.Envelope`, as `buildPaymentEvent` fills it in.
pub record Envelope : Type 0 where
  pub event_id : String
  pub event_type : String
  pub schema_version : ℕ
  pub occurred_at : ℕ
  pub producer : String
  pub correlation_id : String
  pub aggregate_type : String
  pub aggregate_id : String
  pub partition_key : String
  pub event_data : EventData

pub data OutboxState : Type 0 where
  pending processing published : OutboxState

pub record OutboxRow : Type 0 where
  pub event_id : String
  pub topic : String
  pub partition_key : String
  pub aggregate_id : String
  pub payload : Envelope
  pub state : OutboxState
  pub attempts : ℕ
  pub next_attempt_at : ℕ
  pub lease_until : Option ℕ
  pub created_at : ℕ
  pub published_at : Option ℕ

pub record Database : Type 0 where
  pub orders : List OrderRow
  pub payments : List PaymentRow
  pub idempotency_keys : List IdempotencyRow
  pub webhooks : List WebhookRow
  pub outbox : List OutboxRow

-- `enforce_payment_invariants`, the provider's identifier: it stays once it is set.
abbrev pub provider_id_kept : Option String → Option String → Bool
provider_id_kept none new = true
provider_id_kept (some a) none = false
provider_id_kept (some a) (some b) = b == a

abbrev pub length_between : ℕ → ℕ → String → Bool
length_between lo hi s = leb lo (length (codes s)) && leb (length (codes s)) hi

abbrev pub currency_code : String → Bool
currency_code s = match_classes (times 3 is_upper []) (codes s)

-- The CHECKs of `orders`.
unfoldable pub order_checks : OrderRow → Bool
order_checks o =
    ltb_ℤ (pos 0) o.amount_minor
    && (currency_code o.currency
        && (length_between 1 128 o.plan_id
            && (length_between 2 64 o.region && length_between 1 64 o.accepted_terms_version)))
