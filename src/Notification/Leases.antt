-- ===== src/Notification/Leases.antt =====
-- services/notification/internal/postgres/store.go: `ClaimJob` and `finishClaim`.
use vpn_platform.Prelude.{
  ℕ, ◌+◌, Bool, true, false, not, ◌&&◌, ◌||◌, String, Option, none, some, List, ◌==◌, ltb, leb, eqb,
  if◌then◌else◌, find, select, update_where, exists, sort_by, head_option,
}
use vpn_platform.Prelude.Int.{ℤ}
use vpn_platform.Prelude.Text.{codes, ltb_codes}
use vpn_platform.Store.{◌>>=◌, ◌>>◌, return, throw, get, transact, rows_or, maybe, add_duration}
use vpn_platform.Notification.Schema.{
  event_conflict, internal, Status, pending, processing, retry, delivered, permanently_failed,
  suppressed, JobRow, Tx,
}
use vpn_platform.Notification.Jobs.{write_jobs, supersedes, superseded_reason}

abbrev pub unfinished : Status → Bool
unfinished pending = true
unfinished retry = true
unfinished processing = true
unfinished _ = false

abbrev pub blocks : JobRow → JobRow → Bool
blocks j p =
    p.delivery_stream == j.delivery_stream
    && (ltb p.delivery_sequence j.delivery_sequence && unfinished p.status)

abbrev lapsed : Option ℕ → ℕ → Bool
lapsed none now = false
lapsed (some t) now = leb t now

abbrev pub is_due : ℕ → Status → ℕ → Option ℕ → Bool
is_due now pending next lease = leb next now
is_due now retry next lease = leb next now
is_due now processing next lease = lapsed lease now
is_due now _ next lease = false

abbrev pub claimable : ℕ → List JobRow → JobRow → Bool
claimable now jobs j =
    is_due now j.status j.next_attempt_at j.lease_until && not (exists (blocks j) jobs)

-- `ORDER BY next_attempt_at, delivery_stream_key, delivery_sequence, created_at`.
abbrev pub due_before : JobRow → JobRow → Bool
due_before a b =
    ltb a.next_attempt_at b.next_attempt_at
    || (eqb a.next_attempt_at b.next_attempt_at
        && (ltb_codes (codes a.delivery_stream) (codes b.delivery_stream)
            || (a.delivery_stream == b.delivery_stream
                && (ltb a.delivery_sequence b.delivery_sequence
                    || (eqb a.delivery_sequence b.delivery_sequence
                        && ltb a.created_at b.created_at)))))

abbrev pub with_id : String → JobRow → Bool
with_id id j = j.notification_id == id

abbrev pub claimed : String → ℕ → ℕ → JobRow → JobRow
claimed claim_id now lease j = record j {
  status = processing;
  attempts = j.attempts + 1;
  claim_id = some claim_id;
  lease_until = some (now + lease);
  updated_at = now;
}

unfoldable pub lease_job : String → ℕ → ℕ → JobRow → Tx (Option JobRow)
lease_job claim_id now lease j = do
  write_jobs (update_where (with_id j.notification_id) (claimed claim_id now lease))
  return (some (claimed claim_id now lease j))

unfoldable pub claim_job : Option String → ℕ → ℕ → Tx (Option JobRow)
claim_job uuid now lease = do
  claim_id ← rows_or (internal "generate notification claim") uuid
  jobs ← get (λ db. db.jobs)
  maybe (head_option (sort_by due_before (select (claimable now jobs) jobs))) (return none)
      (lease_job claim_id now lease)

abbrev is_processing : Status → Bool
is_processing processing = true
is_processing _ = false

abbrev has_claim : Option String → String → Bool
has_claim none id = false
has_claim (some c) id = c == id

abbrev pub in_claim : String → String → JobRow → Bool
in_claim id claim_id j =
    j.notification_id == id && (is_processing j.status && has_claim j.claim_id claim_id)

-- The four ends of an attempt: `CompleteJob`, `RetryJob`, `FailJob` and `SuppressJob`.
pub data Finish : Type 0 where
  complete : Finish
  try_again : ℤ → Finish
  give_up : String → Finish
  suppress : String → Finish

-- A retry or a failure of a job that a later one supersedes is a suppression.
abbrev pub effective : Finish → Bool → Finish
effective (try_again d) true = suppress superseded_reason
effective (give_up r) true = suppress superseded_reason
effective f superseded = f

abbrev null_if_empty : String → Option String
null_if_empty s = if s == "" then none else some s

abbrev pub finished : Finish → ℕ → JobRow → JobRow
finished complete now j = record j {
  status = delivered;
  delivered_at = some now;
  terminal_reason = none;
  lease_until = none;
  claim_id = none;
  updated_at = now;
}
finished (try_again d) now j = record j {
  status = retry;
  next_attempt_at = add_duration now d;
  delivered_at = none;
  terminal_reason = none;
  lease_until = none;
  claim_id = none;
  updated_at = now;
}
finished (give_up r) now j = record j {
  status = permanently_failed;
  delivered_at = none;
  terminal_reason = null_if_empty r;
  lease_until = none;
  claim_id = none;
  updated_at = now;
}
finished (suppress r) now j = record j {
  status = suppressed;
  delivered_at = none;
  terminal_reason = null_if_empty r;
  lease_until = none;
  claim_id = none;
  updated_at = now;
}

unfoldable pub finish_found : String → String → Finish → ℕ → JobRow → Tx (Unit {0})
finish_found id claim_id f now j = do
  jobs ← get (λ db. db.jobs)
  let superseded = exists (supersedes j.delivery_stream j.delivery_sequence) jobs
  write_jobs (update_where (in_claim id claim_id) (finished (effective f superseded) now))

unfoldable pub finish_claim : String → String → Finish → ℕ → Tx (Unit {0})
finish_claim id claim_id f now = transact (do
  jobs ← get (λ db. db.jobs)
  maybe (find (in_claim id claim_id) jobs) (throw event_conflict) (finish_found id claim_id f now))
