-- ===== src/Notification/Jobs.antt =====
-- services/notification/internal/postgres/store.go: `RecordEvent`, under the lock of the delivery
-- stream.
use vpn_platform.Prelude.{
  ℕ, suc, Bool, true, false, not, ◌&&◌, ◌||◌, String, Option, none, some, List, [], ◌∷◌, ◌++◌, ◌==◌,
  ltb, eqb, if◌then◌else◌, find, update_where, exists,
}
use vpn_platform.Prelude.Int.{eqb_ℤ}
use vpn_platform.Prelude.Text.{concat}
use vpn_platform.Store.{◌>>=◌, ◌>>◌, return, throw, ensure, get, put, transact, branch, maybe}
use vpn_platform.Notification.Schema.{
  event_conflict, sequence_gap, internal, Status, pending, retry, suppressed, EventMeta, Intent,
  CursorRow, InboxRow, JobRow, Tx,
}

unfoldable pub write_cursors : (List CursorRow → List CursorRow) → Tx (Unit {0})
write_cursors f = put (λ db. record db { cursors = f db.cursors })

unfoldable pub write_inbox : (List InboxRow → List InboxRow) → Tx (Unit {0})
write_inbox f = put (λ db. record db { inbox = f db.inbox })

unfoldable pub write_jobs : (List JobRow → List JobRow) → Tx (Unit {0})
write_jobs f = put (λ db. record db { jobs = f db.jobs })

abbrev pub stream_key : EventMeta → String
stream_key m = concat m.producer (concat ":" (concat m.aggregate_type (concat ":" m.aggregate_id)))

abbrev pub moved : EventMeta → CursorRow → CursorRow
moved m c = record c {
  last_sequence = m.aggregate_sequence;
  last_event_id = m.event_id;
  last_payload_sha256 = m.payload_sha256;
}

abbrev pub of_stream : String → CursorRow → Bool
of_stream key c = c.stream_key == key

-- The first event of a stream has the number 1.
unfoldable pub start_cursor : EventMeta → Tx (Unit {0})
start_cursor m = do
  ensure (eqb m.aggregate_sequence 1) sequence_gap
  write_cursors (λ cs.
      cs
      ++ record {
        stream_key = stream_key m;
        last_sequence = m.aggregate_sequence;
        last_event_id = m.event_id;
        last_payload_sha256 = m.payload_sha256;
      }
        ∷ [])

unfoldable pub move_cursor : EventMeta → CursorRow → Tx (Unit {0})
move_cursor m c =
    branch (eqb m.aggregate_sequence (suc c.last_sequence))
      (write_cursors (update_where (of_stream (stream_key m)) (moved m)))
      (throw
        (if ltb (suc c.last_sequence) m.aggregate_sequence then sequence_gap else event_conflict))

unfoldable pub advance_cursor : EventMeta → Tx (Unit {0})
advance_cursor m = branch (eqb m.aggregate_sequence 0) (return tt) (do
  rows ← get (λ db. db.cursors)
  maybe (find (of_stream (stream_key m)) rows) (start_cursor m) (move_cursor m))

abbrev pub with_event : String → InboxRow → Bool
with_event id r = r.event_id == id

abbrev pub inbox_row : EventMeta → Intent → InboxRow
inbox_row m i = record {
  event_id = m.event_id;
  event_type = m.event_type;
  source_topic = m.source_topic;
  source_partition = m.source_partition;
  source_offset = m.source_offset;
  payload_sha256 = m.payload_sha256;
  producer = m.producer;
  aggregate_type = m.aggregate_type;
  aggregate_id = m.aggregate_id;
  aggregate_sequence = m.aggregate_sequence;
  business_dedupe_key = i.business_dedupe_key;
}

-- The unique keys of the inbox; a missing sequence number counts as one value.
abbrev pub same_source : InboxRow → InboxRow → Bool
same_source a b =
    a.event_id == b.event_id
    || ((a.source_topic == b.source_topic
          && (eqb_ℤ a.source_partition b.source_partition && eqb_ℤ a.source_offset b.source_offset))
        || (a.aggregate_type == b.aggregate_type
            && (a.aggregate_id == b.aggregate_id && eqb a.aggregate_sequence b.aggregate_sequence)))

unfoldable pub insert_inbox : InboxRow → Tx (Unit {0})
insert_inbox row = do
  rows ← get (λ db. db.inbox)
  ensure (not (exists (same_source row) rows)) event_conflict
  write_inbox (λ rs. rs ++ row ∷ [])

-- `delivery_stream_key = $1 AND delivery_sequence > $2 AND supersedes_predecessors`.
abbrev pub supersedes : String → ℕ → JobRow → Bool
supersedes stream sequence j =
    j.delivery_stream == stream && (ltb sequence j.delivery_sequence && j.supersedes_older)

abbrev pub superseded_reason : String
superseded_reason = "superseded_by_terminal_state"

abbrev pub job_row : EventMeta → Intent → Status → Option String → ℕ → JobRow
job_row m i status reason now = record {
  notification_id = i.notification_id;
  user_id = i.user_id;
  subscription_id = i.subscription_id;
  credential_id = i.credential_id;
  notification_type = i.notification_type;
  template_version = i.template_version;
  source_event_id = m.event_id;
  business_dedupe_key = i.business_dedupe_key;
  status = status;
  attempts = 0;
  max_attempts = i.max_attempts;
  next_attempt_at = now;
  lease_until = none;
  claim_id = none;
  terminal_reason = reason;
  delivered_at = none;
  correlation_id = m.correlation_id;
  causation_id = m.causation_id;
  variables = i.variables;
  source_producer = m.producer;
  source_aggregate = m.aggregate_type;
  source_aggregate_id = m.aggregate_id;
  source_sequence = m.aggregate_sequence;
  delivery_stream = i.delivery_stream_key;
  delivery_sequence = i.delivery_sequence;
  supersedes_older = i.supersedes_older;
  created_at = now;
  updated_at = now;
}

-- A job is born suppressed if its intent says so, or if a later one of its stream supersedes it.
abbrev pub new_job : EventMeta → Intent → ℕ → List JobRow → JobRow
new_job m i now jobs =
    if not (i.suppressed_reason == "")
    then job_row m i suppressed (some i.suppressed_reason) now
    else if exists (supersedes i.delivery_stream_key i.delivery_sequence) jobs
    then job_row m i suppressed (some superseded_reason) now
    else job_row m i pending none now

-- `status IN ('pending', 'retry')`.
abbrev pub waits : Status → Bool
waits pending = true
waits retry = true
waits _ = false

abbrev pub predecessor : String → ℕ → JobRow → Bool
predecessor stream sequence j =
    j.delivery_stream == stream && (ltb j.delivery_sequence sequence && waits j.status)

abbrev pub suppressed_job : ℕ → JobRow → JobRow
suppressed_job now j = record j {
  status = suppressed;
  terminal_reason = some superseded_reason;
  lease_until = none;
  claim_id = none;
  updated_at = now;
}

unfoldable pub suppress_older : Intent → ℕ → Tx (Unit {0})
suppress_older i now =
    branch i.supersedes_older
      (write_jobs
        (update_where (predecessor i.delivery_stream_key i.delivery_sequence) (suppressed_job now)))
      (return tt)

-- `INSERT … ON CONFLICT (business_dedupe_key) DO NOTHING`, and the suppression that follows: was the
-- job new?
unfoldable pub insert_job : EventMeta → Intent → ℕ → Tx Bool
insert_job m i now = do
  jobs ← get (λ db. db.jobs)
  branch (exists (λ j. j.business_dedupe_key == i.business_dedupe_key) jobs)
      (do suppress_older i now; return false)
      (do
        ensure (not (exists (λ j. j.notification_id == i.notification_id) jobs))
            (internal "insert notification job")
        write_jobs (λ js. js ++ new_job m i now js ∷ [])
        suppress_older i now
        return true)

unfoldable pub record_new : EventMeta → Intent → ℕ → Tx Bool
record_new m i now = do advance_cursor m; insert_inbox (inbox_row m i); insert_job m i now

unfoldable pub record_event : EventMeta → Intent → ℕ → Tx Bool
record_event m i now = transact (do
  rows ← get (λ db. db.inbox)
  maybe (find (with_event m.event_id) rows) (record_new m i now)
      (λ r. do ensure (r.payload_sha256 == m.payload_sha256) event_conflict; return false))
