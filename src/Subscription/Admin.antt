-- ===== src/Subscription/Admin.antt =====
-- `AdminRevoke` of services/subscription/internal/postgres/store.go.
pub mod Idempotence
use vpn_platform.Prelude.{
  ℕ, String, Bool, true, false, not, ◌&&◌, Option, none, some, [], ◌∷◌, ◌++◌, ◌==◌, find,
  update_where, exists,
}
use vpn_platform.Prelude.Text.{concat}
use vpn_platform.Subscription.Types.{
  not_found, idempotency_conflict, admin_revoke_not_allowed, internal, revoked, AdminRevokeInput,
  AdminRevokeResult,
}
use vpn_platform.Subscription.Schema.{Runtime, SubscriptionRow, AdminRevokeRow, terminal_event}
use vpn_platform.Subscription.Transaction.{
  write_subscriptions, write_admin_revokes, maybe, Tx, ◌>>=◌, ◌>>◌, return, get, ensure, rows_or,
  transact, Clock,
}
use vpn_platform.Subscription.Outbox.{with_id, Event, insert_outbox}
use vpn_platform.Subscription.Due.{is_terminal}

abbrev pub has_key : String → AdminRevokeRow → Bool
has_key key r = r.idempotency_key == key

-- `status = 'revoked'`; the dates of the subscription stay.
abbrev pub admin_revoked_row : ℕ → SubscriptionRow → SubscriptionRow
admin_revoked_row now r = record r {
  status = revoked;
  next_transition_at = none;
  transition_lease_until = none;
  updated_at = now;
}

abbrev pub admin_event : AdminRevokeInput → String → ℕ → Event
admin_event input user_id now = record {
  topic = "subscription.revoked.v1";
  subscription_id = input.subscription_id;
  user_id = user_id;
  dedupe_key = concat "admin-revoke:" input.action_id;
  correlation_id = input.correlation_id;
  causation_id = some input.action_id;
  occurred_at = now;
  content = terminal_event input.subscription_id user_id input.reason_code [] now;
}

-- The answer to a key that is stored: the stored result, for the same request only.
unfoldable pub replay_revoke : AdminRevokeRow → AdminRevokeInput → Tx AdminRevokeResult
replay_revoke r input = do
  ensure
      (r.request_sha256 == input.request_sha256
        && (r.subscription_id == input.subscription_id && r.reason_code == input.reason_code))
      idempotency_conflict
  return (record {
    subscription_id = r.subscription_id;
    status = r.result_status;
    reason_code = r.reason_code;
    replay = true;
  })

module _ ⦃rt : Runtime⦄ where
  abbrev pub request_row : AdminRevokeInput → ℕ → AdminRevokeRow
  request_row input now = record {
    idempotency_key = input.idempotency_key;
    request_sha256 = input.request_sha256;
    action_id = rt.uuid_text input.action_id;
    correlation_id = rt.uuid_text input.correlation_id;
    subscription_id = rt.uuid_text input.subscription_id;
    reason_code = input.reason_code;
    result_status = revoked;
    completed_at = now;
  }

  -- `INSERT INTO admin_revoke_requests`, with the unique key on the action.
  unfoldable pub record_revoke : AdminRevokeInput → ℕ → Tx (Unit {0})
  record_revoke input now = do
    rows ← get (λ db. db.admin_revokes)
    ensure (not (exists (λ r. r.action_id == rt.uuid_text input.action_id) rows))
        (internal "record admin revoke")
    write_admin_revokes (λ rs. rs ++ request_row input now ∷ [])

  unfoldable pub perform_revoke : AdminRevokeInput → Option String → Clock → Tx AdminRevokeResult
  perform_revoke input event_uuid clock = do
    subscriptions ← get (λ db. db.subscriptions)
    s ← rows_or not_found (find (with_id (rt.uuid_text input.subscription_id)) subscriptions)
    ensure (not (is_terminal s.status)) admin_revoke_not_allowed
    insert_outbox (admin_event input s.user_id clock.now) event_uuid clock
    write_subscriptions
        (update_where (with_id (rt.uuid_text input.subscription_id)) (admin_revoked_row clock.now))
    record_revoke input clock.now
    return (record {
      subscription_id = input.subscription_id;
      status = revoked;
      reason_code = input.reason_code;
      replay = false;
    })

  unfoldable pub admin_revoke : AdminRevokeInput → Option String → Clock → Tx AdminRevokeResult
  admin_revoke input event_uuid clock = transact (do
    requests ← get (λ db. db.admin_revokes)
    maybe (find (has_key input.idempotency_key) requests) (perform_revoke input event_uuid clock)
        (λ r. replay_revoke r input))
