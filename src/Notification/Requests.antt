-- ===== src/Notification/Requests.antt =====
-- services/notification/internal/postgres/store.go: `RequestRetry` and `GetJob`.
use vpn_platform.Prelude.{
  ℕ, Bool, true, false, not, ◌&&◌, String, none, List, [], ◌∷◌, ◌++◌, ◌==◌, ltb, find, exists,
  update_where,
}
use vpn_platform.Store.{◌>>=◌, ◌>>◌, return, throw, ensure, get, put, transact, rows_or, maybe}
use vpn_platform.Notification.Schema.{
  not_found, idempotency_conflict, retry_not_allowed, internal, Status, pending, retry,
  permanently_failed, JobRow, RequestRow, Tx,
}
use vpn_platform.Notification.Jobs.{write_jobs}
use vpn_platform.Notification.Leases.{with_id}

unfoldable pub write_requests : (List RequestRow → List RequestRow) → Tx (Unit {0})
write_requests f = put (λ db. record db { requests = f db.requests })

abbrev may_retry : Status → Bool
may_retry permanently_failed = true
may_retry retry = true
may_retry _ = false

-- `delivery_stream_key = $1 AND delivery_sequence > $2`.
abbrev pub follows : JobRow → JobRow → Bool
follows j s = s.delivery_stream == j.delivery_stream && ltb j.delivery_sequence s.delivery_sequence

abbrev pub reset : ℕ → JobRow → JobRow
reset now j = record j {
  status = pending;
  attempts = 0;
  next_attempt_at = now;
  lease_until = none;
  claim_id = none;
  terminal_reason = none;
  updated_at = now;
}

abbrev pub with_key : String → RequestRow → Bool
with_key key r = r.idempotency_key == key

unfoldable pub insert_request : RequestRow → Tx (Unit {0})
insert_request row = do
  rows ← get (λ db. db.requests)
  ensure (not (exists (with_key row.idempotency_key) rows))
      (internal "insert notification retry request")
  write_requests (λ rs. rs ++ row ∷ [])

-- `uuid_text` is the canonical text of a UUID, which a `uuid` column gives back and by which it
-- compares.
module _ (uuid_text : String → String) where
  unfoldable pub get_job : String → Tx JobRow
  get_job id = do jobs ← get (λ db. db.jobs); rows_or not_found (find (with_id (uuid_text id)) jobs)

  unfoldable pub retry_job : String → String → String → ℕ → JobRow → Tx (JobRow × Bool)
  retry_job id key hash now j = do
    ensure (may_retry j.status) retry_not_allowed
    jobs ← get (λ db. db.jobs)
    ensure (not (exists (follows j) jobs)) retry_not_allowed
    write_jobs (update_where (with_id (uuid_text id)) (reset now))
    insert_request
        (record { idempotency_key = key; request_sha256 = hash; notification_id = uuid_text id })
    job ← get_job id
    return (job, false)

  unfoldable pub retry_new : String → String → String → ℕ → Tx (JobRow × Bool)
  retry_new id key hash now = do
    jobs ← get (λ db. db.jobs)
    maybe (find (with_id (uuid_text id)) jobs) (throw not_found) (retry_job id key hash now)

  -- Go compares the text of the column with the text of the request.
  unfoldable pub retry_known : String → String → RequestRow → Tx (JobRow × Bool)
  retry_known id hash r = do
    ensure (r.request_sha256 == hash && r.notification_id == id) idempotency_conflict
    job ← get_job id
    return (job, true)

  unfoldable pub request_retry : String → String → String → ℕ → Tx (JobRow × Bool)
  request_retry id key hash now = transact (do
    rows ← get (λ db. db.requests)
    maybe (find (with_key key) rows) (retry_new id key hash now) (retry_known id hash))
