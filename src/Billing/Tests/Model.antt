-- ===== src/Billing/Tests/Model.antt =====
-- Opens the definitions of the billing service, to compute with them.
use vpn_platform.Prelude.{find, select, update_where, exists, insert_by, sort_by}
use vpn_platform.Prelude.Text.{
  in_range, is_digit, is_upper, is_lower_hex, is_hex, all_chars, match_classes, times, is_space,
  trim_left, trim_space, byte_len, eq_codes,
}
use vpn_platform.Subscription.Backoff
use vpn_platform.Subscription.Validation.{
  valid_uuid, valid_uuids, valid_currency, valid_source, is_trimmed, payment_identity, payment_data,
  validate_payment,
}
use vpn_platform.Billing.Types.{is_provider_retryable}
use vpn_platform.Billing.Schema.{order_checks}
use vpn_platform.Billing.Transaction.{transactions}
use vpn_platform.Billing.Orders.{
  get_order, lookup_idempotency, store_idempotency, same_snapshot, insert_order, reuse_order,
  place_order, replay_order, finish_order, create_order, find_order_replay,
}
use vpn_platform.Billing.Payments.{
  join_order, get_payment, find_payment_replay, insert_payment, place_payment, existing_payment,
  payment_for, begin_payment, create_payment,
}
use vpn_platform.Billing.Creation.{
  expire_creation, prepare_provider_create, adopt_payment, apply_provider_create,
  mark_provider_create_ambiguous, mark_provider_create_failed, lease_payment,
  claim_payment_for_reconcile, reschedule_payment,
}
use vpn_platform.Billing.Verified.{
  build_payment_event, succeed_payment, cancel_payment, append_event, insert_outbox, settle_payment,
  apply_verified_payment,
}
use vpn_platform.Billing.Queues.{
  insert_webhook, lease_webhook, claim_webhook, finish_webhook, complete_webhook, reject_webhook,
  retry_webhook, lease_message, claim_outbox, complete_outbox, retry_outbox,
}
use vpn_platform.Billing.Backoff.{retry_backoff}
use vpn_platform.Billing.Service.{
  hash_input, hash_parts, validate_provider_payment, place_new_order, order_call, keep_ambiguous,
  give_up, accept_created, provider_created, create_at_gateway, create_if_new, start_payment,
  payment_call,
}
use vpn_platform.Billing.Worker.{
  settled_by, attempt, apply_provider_state, retry_notification, webhook_verified, webhook_answered,
  process_notification, process_webhook, reconcile_created, reconcile_verified, reconcile_answered,
  reconcile_claimed, reconcile_payment, settle_message, publish_outbox, work_once,
}
use vpn_platform.Billing.System.{step, run}

unfoldable pub model : Unit {0}
unfolding transactions find select update_where exists insert_by sort_by in_range is_digit is_upper
    is_lower_hex is_hex all_chars match_classes times is_space trim_left trim_space byte_len
    eq_codes Backoff.retry_backoff valid_uuid valid_uuids valid_currency valid_source is_trimmed
    payment_identity payment_data validate_payment is_provider_retryable order_checks get_order
    lookup_idempotency store_idempotency same_snapshot insert_order reuse_order place_order
    replay_order finish_order create_order find_order_replay join_order get_payment
    find_payment_replay insert_payment place_payment existing_payment payment_for begin_payment
    create_payment expire_creation prepare_provider_create adopt_payment apply_provider_create
    mark_provider_create_ambiguous mark_provider_create_failed lease_payment
    claim_payment_for_reconcile reschedule_payment build_payment_event succeed_payment
    cancel_payment append_event insert_outbox settle_payment apply_verified_payment insert_webhook
    lease_webhook claim_webhook finish_webhook complete_webhook reject_webhook retry_webhook
    lease_message claim_outbox complete_outbox retry_outbox retry_backoff hash_input hash_parts
    validate_provider_payment place_new_order order_call keep_ambiguous give_up accept_created
    provider_created create_at_gateway create_if_new start_payment payment_call settled_by attempt
    apply_provider_state retry_notification webhook_verified webhook_answered process_notification
    process_webhook reconcile_created reconcile_verified reconcile_answered reconcile_claimed
    reconcile_payment settle_message publish_outbox work_once step run
model = tt
