-- ===== src/Subscription/Validation.antt =====
-- The contract checks of services/subscription/internal/application/service.go.
pub mod Bounds
use vpn_platform.Prelude.{
  ℕ, String, Bool, true, not, ◌&&◌, ◌||◌, List, [], ◌∷◌, Result, ◌>>◌, ensure, leb, eqb, ◌==◌,
}
use vpn_platform.Prelude.Int.{ℤ, pos, ltb_ℤ, eqb_ℤ, ◌+ℤ◌}
use vpn_platform.Prelude.Text.{
  codes, in_range, is_hex, is_upper, is_lower_hex, all_chars, match_classes, times, trim_space,
  eq_codes, byte_len,
}
use vpn_platform.Subscription.Types.{
  Error, contract, EventMeta, PaymentSucceeded, RefundSucceeded, Order,
}

abbrev dash : ℕ → Bool
dash c = eqb c b'-'

-- The classes of `uuidPattern`, one for each character.
abbrev pub uuid_pattern : List (ℕ → Bool)
uuid_pattern = times 8 is_hex (
    dash
    ∷ times 4 is_hex (
        dash
        ∷ in_range b'1' b'5'
        ∷ times 3 is_hex (
            dash
            ∷ (λ c.
                eqb c b'8'
                || (eqb c b'9' || (eqb c b'a' || (eqb c b'b' || (eqb c b'A' || eqb c b'B')))))
            ∷ times 3 is_hex (dash ∷ times 12 is_hex []))))

unfoldable pub valid_uuid : String → Bool
valid_uuid s = match_classes uuid_pattern (codes s)

unfoldable pub valid_uuids : List String → Bool
valid_uuids [] = true
valid_uuids (s ∷ ss) = valid_uuid s && valid_uuids ss

unfoldable pub valid_currency : String → Bool
valid_currency s = eqb (byte_len (codes s)) 3 && all_chars is_upper (codes s)

abbrev pub is_negative : ℤ → Bool
is_negative n = ltb_ℤ n (pos 0)

unfoldable pub valid_source : EventMeta → Bool
valid_source meta =
    meta.source_topic == meta.event_type
    && (not (is_negative meta.source_partition)
        && (not (is_negative meta.source_offset)
            && (eqb (byte_len (codes meta.payload_sha256)) 64
                && all_chars is_lower_hex (codes meta.payload_sha256))))

-- `strings.TrimSpace(s) == s`.
unfoldable pub is_trimmed : String → Bool
is_trimmed s = eq_codes (trim_space (codes s)) (codes s)

-- `n <= 0` fails.
abbrev pub is_positive : ℤ → Bool
is_positive n = ltb_ℤ (pos 0) n

-- `lo <= n && n <= hi`.
abbrev pub between : ℕ → ℕ → ℤ → Bool
between lo hi n = not (ltb_ℤ n (pos lo)) && not (ltb_ℤ (pos hi) n)

unfoldable pub payment_identity : EventMeta → PaymentSucceeded → Bool
payment_identity meta payment =
    meta.event_type == "billing.payment.succeeded.v1"
    && valid_uuids (
        meta.event_id ∷ meta.aggregate_id ∷ meta.correlation_id ∷ payment.payment_id
        ∷ payment.order_id ∷ payment.user_id ∷ [])

unfoldable pub payment_data : EventMeta → PaymentSucceeded → Bool
payment_data meta payment =
    meta.aggregate_id == payment.payment_id
    && (eqb meta.occurred_at payment.paid_at
        && (is_positive payment.amount_minor
            && (not (eqb (byte_len (codes payment.plan_id)) 0)
                && (leb (byte_len (codes payment.plan_id)) 128
                    && (is_trimmed payment.plan_id
                        && (valid_currency payment.currency && not (eqb payment.paid_at 0)))))))

unfoldable pub validate_payment : EventMeta → PaymentSucceeded → Result Error (Unit {0})
validate_payment meta payment = do
  ensure (valid_source meta) (contract "invalid_source_metadata")
  ensure (payment_identity meta payment) (contract "invalid_payment_identity")
  ensure (payment_data meta payment) (contract "invalid_payment_data")

unfoldable pub refund_identity : EventMeta → RefundSucceeded → Bool
refund_identity meta refund =
    meta.event_type == "billing.refund.succeeded.v1"
    && valid_uuids (
        meta.event_id ∷ meta.aggregate_id ∷ meta.correlation_id ∷ refund.refund_id
        ∷ refund.payment_id ∷ refund.order_id ∷ refund.user_id ∷ [])

unfoldable pub refund_data : EventMeta → RefundSucceeded → Bool
refund_data meta refund =
    meta.aggregate_id == refund.refund_id
    && (eqb meta.occurred_at refund.refunded_at
        && (refund.refund_scope == "full"
            && (is_positive refund.amount_minor
                && (valid_currency refund.currency && not (eqb refund.refunded_at 0)))))

unfoldable pub validate_refund : EventMeta → RefundSucceeded → Result Error (Unit {0})
validate_refund meta refund = do
  ensure (valid_source meta) (contract "invalid_source_metadata")
  ensure (refund_identity meta refund) (contract "invalid_refund_identity")
  ensure (refund_data meta refund) (contract "invalid_refund_data")

unfoldable pub order_matches : PaymentSucceeded → Order → Bool
order_matches payment order =
    order.order_id == payment.order_id
    && (order.user_id == payment.user_id
        && (order.status == "paid"
            && (eqb_ℤ order.amount_minor payment.amount_minor
                && (order.currency == payment.currency
                    && (order.plan_snapshot.plan_id == payment.plan_id
                        && (eqb_ℤ order.plan_snapshot.amount_minor payment.amount_minor
                            && order.plan_snapshot.currency == payment.currency))))))

unfoldable pub snapshot_bounded : Order → Bool
snapshot_bounded order =
    between 1 3650 snapshot.duration_days
    && (between 0 720 snapshot.grace_period_hours
        && (leb 2 (byte_len (trim_space (codes snapshot.region)))
            && (leb (byte_len (codes snapshot.region)) 64
                && (is_trimmed snapshot.region
                    && (between 1 8 snapshot.primary_nodes
                        && (between 0 8 snapshot.failover_nodes
                            && not (
                                ltb_ℤ (pos 8)
                                  (snapshot.primary_nodes +ℤ snapshot.failover_nodes))))))))
  where
    open order use {plan_snapshot as snapshot}

unfoldable pub validate_order : PaymentSucceeded → Order → Result Error (Unit {0})
validate_order payment order = do
  ensure (order_matches payment order) (contract "billing_order_mismatch")
  ensure (snapshot_bounded order) (contract "invalid_order_snapshot")
