-- ===== src/Billing/Contract.antt =====
-- The event `billing.payment.succeeded.v1` between two services: what
-- services/billing/internal/postgres/store.go sends is what
-- services/subscription/internal/application/service.go takes.
pub mod Identifiers
pub mod Trim
use vpn_platform.Prelude.{
  ℕ, String, Bool, true, false, Option, none, some, List, [], ◌∷◌, ◌≡◌, sym, ap, ◌∙◌, Result, ok,
  err, ◌&&◌, arith, eqb, leb, if◌then◌else◌,
}
use vpn_platform.Prelude.Int.{pos}
use vpn_platform.Prelude.Text.{
  codes, is_upper, is_lower_hex, in_range, all_chars, byte_len, match_classes, times, trim_space,
}
use vpn_platform.Subscription.Types.{Error, contract, EventMeta, PaymentSucceeded}
use vpn_platform.Subscription.Validation.{valid_currency, is_positive}
use vpn_platform.Billing.Schema.{
  OrderRow, PaymentRow, Envelope, EventData, payment_succeeded, payment_canceled, currency_code,
  order_checks,
}
use vpn_platform.Billing.Payments.{operation_of}
use vpn_platform.Billing.Verified.{succeeded_topic, envelope, succeeded_data}
use vpn_platform.Billing.Contract.Identifiers.{random_form}
use vpn_platform.Billing.Contract.Trim.{byte_len-positive}

-- Where the consumer found the record, and the hash of its bytes.
pub record Source : Type 0 where
  pub partition : ℕ
  pub offset : ℕ
  pub payload_sha256 : String

-- What the consumer makes of an envelope on the topic of its type.
abbrev pub meta_of : Envelope → Source → EventMeta
meta_of e s = record {
  event_id = e.event_id;
  event_type = e.event_type;
  aggregate_id = e.aggregate_id;
  correlation_id = e.correlation_id;
  causation_id = none;
  occurred_at = e.occurred_at;
  source_topic = e.event_type;
  source_partition = pos s.partition;
  source_offset = pos s.offset;
  payload_sha256 = s.payload_sha256;
}

abbrev pub payment_of : EventData → Option PaymentSucceeded
payment_of (payment_canceled p o u t) = none
payment_of (payment_succeeded p o u plan amount currency t) = some (record {
  payment_id = p;
  order_id = o;
  user_id = u;
  plan_id = plan;
  amount_minor = amount;
  currency = currency;
  paid_at = t;
})

three_capitals :
    (cs : List ℕ)
    → match_classes (times 3 is_upper []) cs ≡ true
    → (eqb (byte_len cs) 3 && all_chars is_upper cs) ≡ true
unfolding match_classes times is_upper in_range byte_len all_chars
three_capitals [] h = cc
three_capitals (a ∷ []) h = ground arith
three_capitals (a ∷ b ∷ []) h = ground arith
three_capitals (a ∷ b ∷ c ∷ []) h = ground arith
three_capitals (a ∷ b ∷ c ∷ d ∷ cs) h = ground arith

-- The `char(3)` column with its CHECK is three capital letters, as the consumer wants them.
currency_code-valid_currency : (s : String) → currency_code s ≡ true → valid_currency s ≡ true
unfolding valid_currency
currency_code-valid_currency s h = three_capitals (codes s) h

-- A stored order. Its row passed the CHECKs; its plan is the one that the catalog found under the text
-- of a path, trimmed, among plans whose ids its `Validate` holds to 128 bytes.
pub record IsSold (o : OrderRow) : Type 0 where
  pub checked : order_checks o ≡ true
  pub path : List ℕ
  pub found : codes o.plan_id ≡ trim_space path
  pub short : leb (byte_len (codes o.plan_id)) 128 ≡ true
  pub user_form : random_form o.user_id ≡ true

-- The payment of an order, and the identifiers of its event.
pub record IsCharged (o : OrderRow) (p : PaymentRow) (event_id correlation_id : String)
    : Type 0 where
  pub same_amount : o.amount_minor ≡ p.amount_minor
  pub same_currency : o.currency ≡ p.currency
  pub payment_form : random_form p.id ≡ true
  pub order_form : random_form p.order_id ≡ true
  pub event_form : random_form event_id ≡ true
  pub correlation_form : random_form correlation_id ≡ true

-- The consumer's record is the 64 digits of a hash.
abbrev pub IsHash : String → Type 0
IsHash h = (eqb (byte_len (codes h)) 64 && all_chars is_lower_hex (codes h)) ≡ true

-- What the subscription service says of a payment at this instant.
abbrev pub verdict : ℕ → Result Error (Unit {0})
verdict t = if eqb t 0 then err (contract "invalid_payment_data") else ok tt

module _ (o : OrderRow) (p : PaymentRow) (event_id correlation_id : String) (s : Source)
    (sold : IsSold o) (charged : IsCharged o p event_id correlation_id)
    (hashed : IsHash s.payload_sha256) where
  amount : is_positive p.amount_minor ≡ true
  unfolding order_checks
  amount = ap is_positive (sym charged.same_amount) ∙ ground (arith, sold.checked)

  currency : valid_currency p.currency ≡ true
  unfolding order_checks
  currency =
      ap valid_currency (sym charged.same_currency)
      ∙ currency_code-valid_currency o.currency (ground (arith, sold.checked))

  plan : eqb (byte_len (codes o.plan_id)) 0 ≡ false
  unfolding order_checks
  plan = byte_len-positive (codes o.plan_id) (ground (arith, sold.checked))

  module _ (t : ℕ) where
    abbrev sent : Envelope
    sent =
        envelope (operation_of p o) succeeded_topic correlation_id event_id t
          (succeeded_data (operation_of p o) t)

    abbrev taken : PaymentSucceeded
    taken = record {
      payment_id = p.id;
      order_id = p.order_id;
      user_id = o.user_id;
      plan_id = o.plan_id;
      amount_minor = p.amount_minor;
      currency = p.currency;
      paid_at = t;
    }
