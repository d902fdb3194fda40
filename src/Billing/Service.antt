-- ===== src/Billing/Service.antt =====
-- services/billing/internal/application/service.go: the calls of users, and the creation of a payment
-- at the provider. What the identity and catalog services and the provider answer is a parameter.
use vpn_platform.Prelude.{
  ℕ, Bool, true, false, not, ◌&&◌, ◌||◌, String, Option, none, some, List, [], ◌∷◌, ◌++◌, ◌==◌,
  if◌then◌else◌, is_some, Result, ok, err,
}
use vpn_platform.Prelude.Int.{ℤ, eqb_ℤ}
use vpn_platform.Prelude.Text.{codes, trim_space}
use vpn_platform.Billing.Types.{
  Error, not_found, provider, internal, joined, PlanSnapshot, Order, Payment, PaymentView,
  PaymentOperation, ProviderPayment, ProviderCreateRequest, is_provider_retryable,
}
use vpn_platform.Billing.Status.{awaits_creation}
use vpn_platform.Billing.Transaction.{
  Tx, ◌>>=◌, ◌>>◌, return, throw, ensure, maybe, branch, fetched, catch,
}
use vpn_platform.Billing.Backoff.{Jitter}
use vpn_platform.Billing.Orders.{create_order, find_order_replay, get_order}
use vpn_platform.Billing.Payments.{
  NewPayment, create_payment, find_payment_replay, get_payment, with_payment,
}
use vpn_platform.Billing.Creation.{
  prepare_provider_create, apply_provider_create, mark_provider_create_ambiguous,
  mark_provider_create_failed,
}

-- The settings of `Service` and `Worker`.
pub record Config : Type 0 where
  pub shop_id : String
  pub create_window : ℤ
  pub retry_delay : ℤ
  pub lease : ℕ

-- What one call takes from outside: the other services, the provider, `crypto/sha256` (as hexadecimal
-- text, of a text by its characters) and whether `net/url` finds the scheme https and a host.
pub record Outside : Type 0 where
  pub verify_active_with_consent : String → String → Result Error (Unit {0})
  pub get_plan : String → String → Result Error PlanSnapshot
  pub create_at_provider : ProviderCreateRequest → Result Error ProviderPayment
  pub get_at_provider : String → Result Error ProviderPayment
  pub sha256_hex : List ℕ → String
  pub jitter : Jitter
  pub https_url : String → Bool

-- The instants of the steps of `createAtProvider`, and whether its context has ended before it.
pub record Moments : Type 0 where
  pub ended : Bool
  pub observed_at : ℕ
  pub prepared_at : ℕ
  pub applied_at : ℕ

-- `hashParts`: each part is trimmed and followed by a zero byte.
unfoldable pub hash_input : List String → List ℕ
hash_input [] = []
hash_input (p ∷ ps) = trim_space (codes p) ++ 0 ∷ hash_input ps

-- `providerErrorCode`, by a type assertion on the error itself.
abbrev pub provider_error_code : Error → String
provider_error_code (provider e) = e.code
provider_error_code _ = "provider_error"

abbrev id_matches : Option String → String → Bool
id_matches none actual = true
id_matches (some id) actual = id == actual

abbrev identity_matches : Config → PaymentOperation → ProviderPayment → Bool
identity_matches cfg expected actual =
    actual.test
    && (actual.account_id == cfg.shop_id
        && (eqb_ℤ actual.amount_minor expected.payment.amount_minor
            && (actual.currency == expected.payment.currency
                && (actual.metadata_order_id == expected.payment.order_id
                    && actual.metadata_payment_id == expected.payment.payment_id))))

abbrev check_url : (String → Bool) → Option String → Result Error (Unit {0})
check_url https none = err (internal "provider confirmation URL missing")
check_url https (some url) =
    if https url then ok tt else err (internal "provider confirmation URL invalid")

module _ (cfg : Config) (out : Outside) where
  unfoldable pub hash_parts : List String → String
  hash_parts parts = out.sha256_hex (hash_input parts)

  unfoldable pub validate_provider_payment :
      PaymentOperation → ProviderPayment → Bool → Result Error (Unit {0})
  validate_provider_payment expected actual require_confirmation =
      if not (id_matches expected.provider_payment_id actual.provider_payment_id)
      then err (internal "provider payment id mismatch")
      else if not (identity_matches cfg expected actual)
      then err (internal "provider payment verification mismatch")
      else if require_confirmation && actual.status == "pending"
      then check_url out.https_url actual.confirmation_url
      else ok tt

  unfoldable pub place_new_order :
      (user_id plan_id region terms key : String) → Option String → ℕ → Tx (Order × Bool)
  place_new_order user_id plan_id region terms key uuid now = do
    fetched (out.verify_active_with_consent user_id terms)
    snapshot ← fetched (out.get_plan plan_id region)
    create_order
        (record {
          user_id = user_id;
          plan_id = plan_id;
          region = region;
          accepted_terms_version = terms;
          idempotency_key = key;
          request_hash = hash_parts (user_id ∷ plan_id ∷ region ∷ terms ∷ []);
          snapshot = snapshot;
        })
        uuid now

  unfoldable pub order_call :
      (user_id plan_id region terms key : String) → Option String → ℕ → Tx (Order × Bool)
  order_call user_id plan_id region terms key uuid now = do
    replayed ← find_order_replay user_id key (hash_parts (user_id ∷ plan_id ∷ region ∷ terms ∷ []))
    maybe replayed (place_new_order user_id plan_id region terms key uuid now)
        (λ order. return (order, false))

  unfoldable pub get_payment_status : (user_id order_id payment_id : String) → Tx PaymentView
  get_payment_status user_id order_id payment_id = do
    p ← get_payment (with_payment payment_id)
    ensure (p.user_id == user_id && p.payment.order_id == order_id) not_found
    return record {
      payment_id = p.payment.payment_id;
      order_id = p.payment.order_id;
      status = p.payment.status;
      amount_minor = p.payment.amount_minor;
      currency = p.payment.currency;
      paid_at = p.payment.paid_at;
      created_at = p.payment.created_at;
    }

  abbrev pub create_request : PaymentOperation → ProviderCreateRequest
  create_request p = record {
    idempotency_key = p.provider_idempotency_key;
    order_id = p.payment.order_id;
    payment_id = p.payment.payment_id;
    amount_minor = p.payment.amount_minor;
    currency = p.payment.currency;
  }

  -- `errors.Join(err, …)` with an error of the recovery.
  abbrev pub joining : {A : Type 0} → Error → Tx A → Tx A
  joining e m = catch m (λ x. throw (joined e x))

  unfoldable pub keep_ambiguous : PaymentOperation → Error → ℕ → Tx PaymentOperation
  keep_ambiguous p e now = do
    joining e (
        mark_provider_create_ambiguous p.payment.payment_id (provider_error_code e) cfg.retry_delay
          now)
    joining e (get_payment (with_payment p.payment.payment_id))

  unfoldable pub give_up : PaymentOperation → Error → String → ℕ → Tx PaymentOperation
  give_up p e code now = do
    joining e (mark_provider_create_failed p.payment.payment_id code now)
    throw e

  -- A created payment is adopted if it is the one that was asked for.
  unfoldable pub accept_created :
      PaymentOperation → ProviderPayment → Result Error (Unit {0}) → ℕ → Tx PaymentOperation
  accept_created p actual (err e) now = give_up p e "provider_mismatch" now
  accept_created p actual (ok a) now = apply_provider_create p.payment.payment_id actual now

  unfoldable pub provider_created :
      PaymentOperation → Result Error ProviderPayment → ℕ → Tx PaymentOperation
  provider_created p (ok actual) now =
      accept_created p actual (validate_provider_payment p actual true) now
  provider_created p (err e) now =
      branch (is_provider_retryable e) (keep_ambiguous p e now)
        (give_up p e (provider_error_code e) now)

  unfoldable pub create_at_gateway : PaymentOperation → Moments → Tx PaymentOperation
  create_at_gateway operation m = do
    ensure (not m.ended) (internal "context ended")
    prepared ← prepare_provider_create operation.payment.payment_id m.observed_at m.prepared_at
    branch prepared.1
        (provider_created prepared.0 (out.create_at_provider (create_request prepared.0))
          m.applied_at)
        (return prepared.0)

  unfoldable pub create_if_new : PaymentOperation × Bool → Moments → Tx (Payment × Bool)
  create_if_new made m =
      branch (not (awaits_creation made.0.payment.status) || is_some made.0.provider_payment_id)
        (return (made.0.payment, made.1))
        (do p ← create_at_gateway made.0 m; return (p.payment, made.1))

  unfoldable pub start_payment :
      (user_id order_id key : String) → NewPayment → Moments → Tx (Payment × Bool)
  start_payment user_id order_id key n m = do
    order ← get_order user_id order_id
    fetched (out.verify_active_with_consent user_id order.accepted_terms_version)
    made ←
        create_payment
          (record {
            user_id = user_id;
            order_id = order_id;
            idempotency_key = key;
            request_hash = hash_parts (user_id ∷ order_id ∷ []);
          })
          "yookassa" cfg.create_window n
    create_if_new made m

  unfoldable pub payment_call :
      (user_id order_id key : String) → NewPayment → Moments → Tx (Payment × Bool)
  payment_call user_id order_id key n m = do
    replayed ← find_payment_replay user_id key (hash_parts (user_id ∷ order_id ∷ []))
    maybe replayed (start_payment user_id order_id key n m) (λ p. return (p.payment, false))
