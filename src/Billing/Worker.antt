-- ===== src/Billing/Worker.antt =====
-- services/billing/internal/application/worker.go: one round of the background worker.
use vpn_platform.Prelude.{
  ℕ, Bool, true, false, not, ◌&&◌, String, Option, some, ◌==◌, if◌then◌else◌, is_some, Result, ok,
  err,
}
use vpn_platform.Prelude.Int.{ℤ, pos}
use vpn_platform.Billing.Types.{
  Error, not_found, state_conflict, internal, PaymentOperation, ProviderPayment,
  WebhookNotification, is_provider_retryable,
}
use vpn_platform.Billing.Status.{payment_active}
use vpn_platform.Billing.Schema.{Database, OutboxRow}
use vpn_platform.Billing.Transaction.{Tx, ◌>>=◌, ◌>>◌, return, ensure, maybe, branch, random_uuid}
use vpn_platform.Billing.Backoff.{retry_backoff}
use vpn_platform.Billing.Payments.{at_provider, get_payment}
use vpn_platform.Billing.Creation.{
  claim_payment_for_reconcile, reschedule_payment, mark_provider_create_failed,
}
use vpn_platform.Billing.Verified.{apply_verified_payment}
use vpn_platform.Billing.Queues.{
  claim_webhook, complete_webhook, reject_webhook, retry_webhook, claim_outbox, complete_outbox,
  retry_outbox,
}
use vpn_platform.Billing.Service.{
  Config, Outside, Moments, provider_error_code, validate_provider_payment, create_at_gateway,
}

-- `Publisher.Publish`: did the broker take the message?
abbrev pub Publisher : Type 0
Publisher = OutboxRow → Bool

-- What one attempt to settle a payment takes from outside.
pub record Attempt : Type 0 where
  pub correlation_uuid : Option String
  pub event_uuid : Option String
  pub observed_at : ℕ  -- the service's now()
  pub applied_at : ℕ  -- the database's now()

pub record Round : Type 0 where
  pub webhook_claimed_at : ℕ
  pub webhook_attempt : Attempt
  pub webhook_settled_at : ℕ
  pub payment_claimed_at : ℕ
  pub payment_moments : Moments
  pub payment_attempt : Attempt
  pub payment_settled_at : ℕ
  pub outbox_claimed_at : ℕ
  pub outbox_settled_at : ℕ

-- What follows a call depends on its error.
unfoldable pub settled_by :
    {A B : Type 0}
    → Result Error A × Database
    → (A → Tx B)
    → (Error → Tx B)
    → Result Error B × Database
settled_by (ok a, db) f h = f a db
settled_by (err e, db) f h = h e db

unfoldable pub attempt : {A B : Type 0} → Tx A → (A → Tx B) → (Error → Tx B) → Tx B
attempt m f h db = settled_by (m db) f h

abbrev pub is_not_found : Error → Bool
is_not_found not_found = true
is_not_found _ = false

abbrev pub is_state_conflict : Error → Bool
is_state_conflict state_conflict = true
is_state_conflict _ = false

-- A canceled payment without an instant takes the one at which it is seen.
abbrev pub observed : ℕ → ProviderPayment → ProviderPayment
observed now p =
    if p.status == "canceled" && not (is_some p.canceled_at)
    then record p { canceled_at = some now }
    else p

unfoldable pub apply_provider_state : PaymentOperation → ProviderPayment → Attempt → Tx (Unit {0})
apply_provider_state operation p a =
    branch (p.status == "pending")
      (reschedule_payment operation.payment.payment_id "" (pos 60000000000) a.applied_at)
      (do
        ensure (not (p.status == "succeeded" && not (is_some p.captured_at)))
            (internal "succeeded provider payment has no captured_at")
        correlation_id ← random_uuid a.correlation_uuid
        apply_verified_payment operation (observed a.observed_at p) correlation_id a.event_uuid
            a.applied_at)

module _ (cfg : Config) (out : Outside) where
  unfoldable pub retry_notification : WebhookNotification → String → ℕ → Tx (Unit {0})
  retry_notification n code now =
      retry_webhook n.inbox_id code (retry_backoff out.jitter cfg.retry_delay n.attempts n.inbox_id)
        now

  unfoldable pub webhook_verified :
      WebhookNotification
      → PaymentOperation
      → ProviderPayment
      → Result Error (Unit {0})
      → Attempt
      → ℕ
      → Tx (Unit {0})
  webhook_verified n operation p (err e) a now = reject_webhook n.inbox_id "provider_mismatch" now
  webhook_verified n operation p (ok t) a now =
      attempt (apply_provider_state operation p a) (λ t. complete_webhook n.inbox_id "verified" now)
        (λ e.
          branch (is_state_conflict e) (reject_webhook n.inbox_id "state_conflict" now)
            (retry_notification n "apply_failed" now))

  unfoldable pub webhook_answered :
      WebhookNotification
      → PaymentOperation
      → Result Error ProviderPayment
      → Attempt
      → ℕ
      → Tx (Unit {0})
  webhook_answered n operation (err e) a now =
      branch (is_provider_retryable e) (retry_notification n (provider_error_code e) now)
        (reject_webhook n.inbox_id (provider_error_code e) now)
  webhook_answered n operation (ok p) a now =
      webhook_verified n operation p (validate_provider_payment cfg out operation p false) a now

  unfoldable pub process_notification : WebhookNotification → Attempt → ℕ → Tx (Unit {0})
  process_notification n a now =
      attempt (get_payment (at_provider n.provider_object_id))
        (λ operation. webhook_answered n operation (out.get_at_provider n.provider_object_id) a now)
        (λ e.
          branch (is_not_found e) (reject_webhook n.inbox_id "unknown_payment" now)
            (retry_notification n "database_error" now))

  unfoldable pub process_webhook : Round → Tx (Unit {0})
  process_webhook r = do
    claimed ← claim_webhook r.webhook_claimed_at cfg.lease
    maybe claimed (return tt) (λ n. process_notification n r.webhook_attempt r.webhook_settled_at)

  abbrev pub payment_delay : PaymentOperation → ℤ
  payment_delay p =
      retry_backoff out.jitter cfg.retry_delay p.reconcile_attempts p.payment.payment_id

  unfoldable pub reconcile_created : PaymentOperation → Round → Tx (Unit {0})
  reconcile_created p r = do
    created ← create_at_gateway cfg out p r.payment_moments
    branch (payment_active created.payment.status)
        (reschedule_payment created.payment.payment_id "" (payment_delay p) r.payment_settled_at)
        (return tt)

  unfoldable pub reconcile_verified :
      PaymentOperation → ProviderPayment → Result Error (Unit {0}) → Round → Tx (Unit {0})
  reconcile_verified p actual (err e) r =
      mark_provider_create_failed p.payment.payment_id "provider_mismatch" r.payment_settled_at
  reconcile_verified p actual (ok t) r = apply_provider_state p actual r.payment_attempt

  unfoldable pub reconcile_answered :
      PaymentOperation → Result Error ProviderPayment → Round → Tx (Unit {0})
  reconcile_answered p (err e) r =
      branch (is_provider_retryable e)
        (reschedule_payment p.payment.payment_id (provider_error_code e) (payment_delay p)
          r.payment_settled_at)
        (mark_provider_create_failed p.payment.payment_id (provider_error_code e)
          r.payment_settled_at)
  reconcile_answered p (ok actual) r =
      reconcile_verified p actual (validate_provider_payment cfg out p actual false) r

  unfoldable pub reconcile_claimed : Round → PaymentOperation → Tx (Unit {0})
  reconcile_claimed r p =
      maybe p.provider_payment_id (reconcile_created p r)
        (λ id. reconcile_answered p (out.get_at_provider id) r)

  unfoldable pub reconcile_payment : Round → Tx (Unit {0})
  reconcile_payment r = do
    claimed ← claim_payment_for_reconcile r.payment_claimed_at cfg.lease
    maybe claimed (return tt) (reconcile_claimed r)

  unfoldable pub settle_message : Publisher → ℕ → OutboxRow → Tx (Unit {0})
  settle_message publish now o =
      branch (publish o) (complete_outbox o.event_id now) (
        retry_outbox o.event_id (retry_backoff out.jitter cfg.retry_delay o.attempts o.event_id)
          now)

  unfoldable pub publish_outbox : Publisher → Round → Tx (Unit {0})
  publish_outbox publish r = do
    claimed ← claim_outbox r.outbox_claimed_at cfg.lease
    maybe claimed (return tt) (settle_message publish r.outbox_settled_at)

  -- `workOnce`: the errors of the three parts are logged, and what each has committed stays.
  unfoldable pub work_once : Publisher → Round → Database → Database
  work_once publish r db =
      (publish_outbox publish r (reconcile_payment r (process_webhook r db).1).1).1
