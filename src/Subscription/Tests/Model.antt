-- ===== src/Subscription/Tests/Model.antt =====
-- Opens the definitions of the service, to compute with them.
use vpn_platform.Prelude.{find, select, update_where, exists, insert_by, sort_by}
use vpn_platform.Prelude.Text.{
  in_range, is_digit, is_upper, is_lower, is_hex, is_lower_hex, all_chars, match_classes, times,
  is_space, trim_left, trim_space, eq_codes, ltb_codes, byte_len,
}
use vpn_platform.Subscription.Transaction.{transactions}
use vpn_platform.Subscription.Entitlement.{
  status_at, last_match, select_base, extend_chain, entitlement_of, calculate_entitlement,
}
use vpn_platform.Subscription.Inbox.{
  check_replay, insert_dead_letter, record_dead_letter, lease_refund, claim_refund,
  insert_inbox_known, insert_inbox_new, insert_inbox, mark_inbox_processed, set_processed_at,
  dead_letter_inbox,
}
use vpn_platform.Subscription.Outbox.{
  build_event_payload, lease_outbox, claim_outbox, insert_outbox, complete_outbox, retry_outbox,
}
use vpn_platform.Subscription.Payment.{
  find_paid, insert_period, payment_event, update_subscription, create_subscription,
  get_or_create_subscription, record_replay, record_payment_replay, add_period, apply_known,
  apply_new, apply_payment,
}
use vpn_platform.Subscription.Plan.{plan_of}
use vpn_platform.Subscription.Reads.{get_subscription, get_placement}
use vpn_platform.Subscription.Refund.{
  check_refunded, refund_period, settle_refund, refund_paid, refund_known, apply_refund,
  recover_refund, try_refund, finish_refund, store_refund, reschedule_refund, apply_claimed_refund,
}
use vpn_platform.Subscription.Due.{lease_due, claim_due, expire, advance, complete_due}
use vpn_platform.Subscription.Admin.{replay_revoke, record_revoke, perform_revoke, admin_revoke}
use vpn_platform.Subscription.Validation.{
  valid_uuid, valid_uuids, valid_currency, valid_source, is_trimmed, payment_identity, payment_data,
  validate_payment, refund_identity, refund_data, validate_refund, order_matches, snapshot_bounded,
  validate_order,
}
use vpn_platform.Subscription.Backoff.{retry_backoff}
use vpn_platform.Subscription.Service.{apply_order, handle_payment, handle_refund}
use vpn_platform.Subscription.Worker.{
  reconcile_refund, advance_lifecycle, settle_message, publish_outbox, work_once,
}
use vpn_platform.Subscription.System.{step, run}

unfoldable pub model : Unit {0}
unfolding transactions find select update_where exists insert_by sort_by in_range is_digit is_upper
    is_lower is_hex is_lower_hex all_chars match_classes times is_space trim_left trim_space
    eq_codes ltb_codes byte_len status_at last_match select_base extend_chain entitlement_of
    calculate_entitlement check_replay insert_dead_letter record_dead_letter lease_refund
    claim_refund insert_inbox_known insert_inbox_new insert_inbox mark_inbox_processed
    set_processed_at dead_letter_inbox build_event_payload lease_outbox claim_outbox insert_outbox
    complete_outbox retry_outbox find_paid plan_of insert_period payment_event update_subscription
    create_subscription get_or_create_subscription record_replay record_payment_replay add_period
    apply_known apply_new apply_payment get_subscription get_placement check_refunded refund_period
    settle_refund refund_paid refund_known apply_refund recover_refund try_refund finish_refund
    store_refund reschedule_refund apply_claimed_refund lease_due claim_due expire advance
    complete_due replay_revoke record_revoke perform_revoke admin_revoke valid_uuid valid_uuids
    valid_currency valid_source is_trimmed payment_identity payment_data validate_payment
    refund_identity refund_data validate_refund order_matches snapshot_bounded validate_order
    retry_backoff apply_order handle_payment handle_refund reconcile_refund advance_lifecycle
    settle_message publish_outbox work_once step run
model = tt
