-- ===== src/Billing/Queues.antt =====
-- The two queues of services/billing/internal/postgres/store.go: the inbox of webhooks
-- (`InsertWebhook`, `ClaimWebhook`, `CompleteWebhook`, `RejectWebhook`, `RetryWebhook`) and the outbox
-- (`ClaimOutbox`, `CompleteOutbox`, `RetryOutbox`).
use vpn_platform.Prelude.{
  ℕ, ◌+◌, Bool, true, false, ◌&&◌, ◌||◌, String, Option, none, some, [], ◌∷◌, ◌++◌, ◌==◌, ltb, leb,
  select, exists, update_where, sort_by, head_option,
}
use vpn_platform.Prelude.Int.{ℤ}
use vpn_platform.Billing.Types.{internal, WebhookNotification}
use vpn_platform.Billing.Schema.{WebhookRow, WebhookState, OutboxRow, OutboxState, length_between}
use vpn_platform.Billing.Transaction.{
  Tx, ◌>>=◌, ◌>>◌, return, ensure, get, maybe, branch, write_webhooks, write_outbox, add_duration,
}
use vpn_platform.Billing.Creation.{null_if_empty}

abbrev pub webhook_row : WebhookNotification → ℕ → WebhookRow
webhook_row n now = record {
  id = n.inbox_id;
  event_type = n.event_type;
  provider_object_id = n.provider_object_id;
  observed_status = n.observed_status;
  state = WebhookState.pending;
  attempts = 0;
  next_attempt_at = now;
  lease_until = none;
  last_error_code = none;
  received_at = now;
  processed_at = none;
}

-- The CHECKs of `webhook_inbox`.
abbrev pub webhook_checks : WebhookNotification → Bool
webhook_checks n =
    (n.event_type == "payment.succeeded" || n.event_type == "payment.canceled")
    && (length_between 1 128 n.provider_object_id
        && (n.observed_status == "pending"
            || (n.observed_status == "succeeded" || n.observed_status == "canceled")))

-- The primary key, and what makes a notification the repetition of another.
abbrev pub same_notification : WebhookNotification → WebhookRow → Bool
same_notification n r =
    r.id == n.inbox_id
    || (r.event_type == n.event_type
        && (r.provider_object_id == n.provider_object_id && r.observed_status == n.observed_status))

-- `INSERT … ON CONFLICT DO NOTHING`: was it new?
unfoldable pub insert_webhook : WebhookNotification → ℕ → Tx Bool
insert_webhook n now = do
  ensure (webhook_checks n) (internal "insert webhook inbox")
  rows ← get (λ db. db.webhooks)
  branch (exists (same_notification n) rows) (return false)
      (do write_webhooks (λ rs. rs ++ webhook_row n now ∷ []); return true)

abbrev pub expired : Option ℕ → ℕ → Bool
expired none now = false
expired (some t) now = ltb t now

-- `(state='pending' AND next_attempt_at<=now()) OR (state='processing' AND lease_until<now())`.
abbrev pub webhook_ready : ℕ → WebhookState → ℕ → Option ℕ → Bool
webhook_ready now WebhookState.pending next lease = leb next now
webhook_ready now WebhookState.processing next lease = expired lease now
webhook_ready now _ next lease = false

abbrev pub webhook_due : ℕ → WebhookRow → Bool
webhook_due now r = webhook_ready now r.state r.next_attempt_at r.lease_until

abbrev pub received_before : WebhookRow → WebhookRow → Bool
received_before a b = ltb a.received_at b.received_at

abbrev pub leased_webhook : ℕ → ℕ → WebhookRow → WebhookRow
leased_webhook now lease r = record r {
  state = WebhookState.processing;
  attempts = r.attempts + 1;
  lease_until = some (now + lease);
}

abbrev pub with_inbox : String → WebhookRow → Bool
with_inbox id r = r.id == id

abbrev pub notification_of : WebhookRow → WebhookNotification
notification_of r = record {
  inbox_id = r.id;
  event_type = r.event_type;
  provider_object_id = r.provider_object_id;
  observed_status = r.observed_status;
  attempts = r.attempts;
}

unfoldable pub lease_webhook : ℕ → ℕ → WebhookRow → Tx (Option WebhookNotification)
lease_webhook now lease r = do
  write_webhooks (update_where (with_inbox r.id) (leased_webhook now lease))
  return (some (notification_of (leased_webhook now lease r)))

unfoldable pub claim_webhook : ℕ → ℕ → Tx (Option WebhookNotification)
claim_webhook now lease = do
  rows ← get (λ db. db.webhooks)
  maybe (head_option (sort_by received_before (select (webhook_due now) rows))) (return none)
      (lease_webhook now lease)

abbrev pub is_processing_webhook : WebhookState → Bool
is_processing_webhook WebhookState.processing = true
is_processing_webhook _ = false

abbrev pub webhook_in_flight : String → WebhookRow → Bool
webhook_in_flight id r = r.id == id && is_processing_webhook r.state

abbrev pub finished_webhook : WebhookState → String → ℕ → WebhookRow → WebhookRow
finished_webhook state code now r = record r {
  state = state;
  last_error_code = null_if_empty code;
  lease_until = none;
  processed_at = some now;
}

unfoldable pub finish_webhook : String → WebhookState → String → ℕ → Tx (Unit {0})
finish_webhook inbox_id state code now =
    write_webhooks (update_where (webhook_in_flight inbox_id) (finished_webhook state code now))

unfoldable pub complete_webhook : String → String → ℕ → Tx (Unit {0})
complete_webhook inbox_id code now = finish_webhook inbox_id WebhookState.processed code now

unfoldable pub reject_webhook : String → String → ℕ → Tx (Unit {0})
reject_webhook inbox_id code now = finish_webhook inbox_id WebhookState.dead code now

abbrev pub retried_webhook : String → ℤ → ℕ → WebhookRow → WebhookRow
retried_webhook code delay now r = record r {
  state = WebhookState.pending;
  last_error_code = some code;
  lease_until = none;
  next_attempt_at = add_duration now delay;
}

unfoldable pub retry_webhook : String → String → ℤ → ℕ → Tx (Unit {0})
retry_webhook inbox_id code delay now =
    write_webhooks (update_where (webhook_in_flight inbox_id) (retried_webhook code delay now))

abbrev pub message_ready : ℕ → OutboxState → ℕ → Option ℕ → Bool
message_ready now OutboxState.pending next lease = leb next now
message_ready now OutboxState.processing next lease = expired lease now
message_ready now _ next lease = false

abbrev pub message_due : ℕ → OutboxRow → Bool
message_due now o = message_ready now o.state o.next_attempt_at o.lease_until

abbrev pub sent_before : OutboxRow → OutboxRow → Bool
sent_before a b = ltb a.created_at b.created_at

abbrev pub leased_message : ℕ → ℕ → OutboxRow → OutboxRow
leased_message now lease o = record o {
  state = OutboxState.processing;
  attempts = o.attempts + 1;
  lease_until = some (now + lease);
}

abbrev pub with_event : String → OutboxRow → Bool
with_event id o = o.event_id == id

unfoldable pub lease_message : ℕ → ℕ → OutboxRow → Tx (Option OutboxRow)
lease_message now lease o = do
  write_outbox (update_where (with_event o.event_id) (leased_message now lease))
  return (some (leased_message now lease o))

unfoldable pub claim_outbox : ℕ → ℕ → Tx (Option OutboxRow)
claim_outbox now lease = do
  rows ← get (λ db. db.outbox)
  maybe (head_option (sort_by sent_before (select (message_due now) rows))) (return none)
      (lease_message now lease)

abbrev pub is_processing_message : OutboxState → Bool
is_processing_message OutboxState.processing = true
is_processing_message _ = false

abbrev pub message_in_flight : String → OutboxRow → Bool
message_in_flight id o = o.event_id == id && is_processing_message o.state

abbrev pub completed_message : ℕ → OutboxRow → OutboxRow
completed_message now o = record o {
  state = OutboxState.published;
  lease_until = none;
  published_at = some now;
}

unfoldable pub complete_outbox : String → ℕ → Tx (Unit {0})
complete_outbox event_id now =
    write_outbox (update_where (message_in_flight event_id) (completed_message now))

abbrev pub retried_message : ℤ → ℕ → OutboxRow → OutboxRow
retried_message delay now o = record o {
  state = OutboxState.pending;
  lease_until = none;
  next_attempt_at = add_duration now delay;
}

unfoldable pub retry_outbox : String → ℤ → ℕ → Tx (Unit {0})
retry_outbox event_id delay now =
    write_outbox (update_where (message_in_flight event_id) (retried_message delay now))
