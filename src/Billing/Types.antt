-- ===== src/Billing/Types.antt =====
-- services/billing/internal/domain/types.go: the values that the parts exchange.
-- An instant is a count of nanoseconds since the zero `time.Time`.
use vpn_platform.Prelude.{ℕ, Bool, false, ◌||◌, String, Option, none, some, ◌==◌}
use vpn_platform.Prelude.Int.{ℤ}

-- `ProviderError`.
pub record ProviderError : Type 0 where
  pub kind : String
  pub code : String

pub data Error : Type 0 where
  not_found idempotency_conflict state_conflict user_unavailable consent_required : Error
  provider : ProviderError → Error
  internal : String → Error  -- any other error, by its message
  joined : Error → Error → Error  -- errors.Join

pub data OrderStatus : Type 0 where
  created payment_pending paid canceled : OrderStatus

pub data PaymentStatus : Type 0 where
  created verification_pending pending succeeded canceled failed : PaymentStatus

pub record PlanSnapshot : Type 0 where
  pub plan_id : String
  pub name : String
  pub duration_days : ℤ
  pub grace_period_hours : ℤ
  pub amount_minor : ℤ
  pub currency : String
  pub region : String
  pub region_policy : String
  pub traffic_policy : String
  pub primary_nodes : ℤ
  pub failover_nodes : ℤ

pub record Order : Type 0 where
  pub order_id : String
  pub user_id : String
  pub status : OrderStatus
  pub amount_minor : ℤ
  pub currency : String
  pub accepted_terms_version : String
  pub plan_snapshot : PlanSnapshot
  pub created_at : ℕ

pub record Payment : Type 0 where
  pub payment_id : String
  pub order_id : String
  pub status : PaymentStatus
  pub amount_minor : ℤ
  pub currency : String
  pub confirmation_url : Option String
  pub paid_at : Option ℕ
  pub created_at : ℕ

-- `PaymentStatus`, what a user may see of a payment.
pub record PaymentView : Type 0 where
  pub payment_id : String
  pub order_id : String
  pub status : PaymentStatus
  pub amount_minor : ℤ
  pub currency : String
  pub paid_at : Option ℕ
  pub created_at : ℕ

pub record CreateOrderInput : Type 0 where
  pub user_id : String
  pub plan_id : String
  pub region : String
  pub accepted_terms_version : String
  pub idempotency_key : String
  pub request_hash : String
  pub snapshot : PlanSnapshot

pub record CreatePaymentInput : Type 0 where
  pub user_id : String
  pub order_id : String
  pub idempotency_key : String
  pub request_hash : String

-- `PaymentOperation` embeds the payment.
pub record PaymentOperation : Type 0 where
  pub payment : Payment
  pub user_id : String
  pub plan_id : String
  pub provider : String
  pub provider_payment_id : Option String
  pub provider_idempotency_key : String
  pub provider_create_deadline : ℕ
  pub next_reconcile_at : ℕ
  pub reconcile_attempts : ℕ

pub record WebhookNotification : Type 0 where
  pub inbox_id : String
  pub event_type : String
  pub provider_object_id : String
  pub observed_status : String
  pub attempts : ℕ

pub record ProviderPayment : Type 0 where
  pub provider_payment_id : String
  pub status : String
  pub amount_minor : ℤ
  pub currency : String
  pub confirmation_url : Option String
  pub test : Bool
  pub account_id : String
  pub metadata_order_id : String
  pub metadata_payment_id : String
  pub captured_at : Option ℕ
  pub canceled_at : Option ℕ

pub record ProviderCreateRequest : Type 0 where
  pub idempotency_key : String
  pub order_id : String
  pub payment_id : String
  pub amount_minor : ℤ
  pub currency : String

abbrev or_else : {A : Type 0} → Option A → Option A → Option A
or_else none o = o
or_else (some a) o = some a

-- `errors.As(err, &providerErr)`: the first of the tree.
abbrev as_provider_error : Error → Option ProviderError
as_provider_error (provider e) = some e
as_provider_error (joined a b) = or_else (as_provider_error a) (as_provider_error b)
as_provider_error _ = none

abbrev retryable_kind : Option ProviderError → Bool
retryable_kind none = false
retryable_kind (some e) = e.kind == "ambiguous" || e.kind == "temporary"

unfoldable pub is_provider_retryable : Error → Bool
is_provider_retryable e = retryable_kind (as_provider_error e)
