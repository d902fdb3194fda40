-- ===== src/Notification/Tests.antt =====
-- The theorems at a concrete run: two events of one stream, and the claim of the first job.
use vpn_platform.Prelude.{
  ℕ, ◌≡◌, refl, Bool, true, false, none, some, String, List, [], ◌∷◌, ◌++◌, if◌then◌else◌, ◌==◌, ok,
  err, map, find, exists, select, sort_by, insert_by, update_where,
}
use vpn_platform.Prelude.Int.{pos}
use vpn_platform.Prelude.Text.{ltb_codes}
use vpn_platform.Store.{
  bind, ◌>>=◌, ◌>>◌, return, throw, ensure, get, put, settle, transact, rows_or, branch, maybe,
}
use vpn_platform.Notification.Schema.{
  EventMeta, Intent, idempotency_conflict, permanently_failed, JobRow, Database, Status, processing,
  pending, suppressed, event_conflict,
}
use vpn_platform.Notification.Jobs.{
  write_cursors, write_inbox, write_jobs, advance_cursor, start_cursor, move_cursor, insert_inbox,
  suppress_older, insert_job, record_new, record_event, job_row,
}
use vpn_platform.Notification.Leases.{
  lease_job, claim_job, complete, try_again, give_up, finish_found, finish_claim,
}
use vpn_platform.Notification.Replay.{record_event-again}
use vpn_platform.Notification.Claims.{finish_claim-once}
use vpn_platform.Notification.Requests.{
  write_requests, get_job, insert_request, retry_job, retry_new, retry_known, request_retry,
}
use vpn_platform.Notification.Again.{request_retry-again}

abbrev empty : Database
empty = record { cursors = []; inbox = []; jobs = []; requests = [] }

abbrev event : String → ℕ → EventMeta
event id n = record {
  event_id = id;
  event_type = "subscription.activated";
  producer = "subscription-service";
  aggregate_type = "subscription";
  aggregate_id = "s";
  aggregate_sequence = n;
  correlation_id = "c";
  causation_id = none;
  source_topic = "subscriptions";
  source_partition = pos 0;
  source_offset = pos n;
  payload_sha256 = "h";
}

abbrev intent : String → ℕ → Bool → Intent
intent id n last = record {
  notification_id = id;
  user_id = "u";
  subscription_id = some "s";
  credential_id = none;
  notification_type = "subscription_activated";
  template_version = pos 1;
  business_dedupe_key = id;
  delivery_stream_key = "u";
  delivery_sequence = n;
  supersedes_older = last;
  variables = [];
  suppressed_reason = "";
  max_attempts = pos 8;
}

abbrev one : Database
one = (record_event (event "a" 1) (intent "n1" 1 false) 5 empty).1

abbrev leased : Database
leased = (claim_job (some "k") 6 10 one).1

abbrev completed : Database
completed = (finish_claim "n1" "k" complete 7 leased).1

abbrev statuses : Database → List Status
statuses db = map (λ (j : JobRow). j.status) db.jobs

-- A job that is leased, and one that a later event suppresses.
leased_job : statuses leased ≡ processing ∷ []
unfolding bind ◌>>=◌ ◌>>◌ return throw ensure get put settle transact rows_or branch maybe
    write_cursors write_inbox write_jobs advance_cursor start_cursor move_cursor insert_inbox
    suppress_older insert_job record_new record_event lease_job claim_job find exists select sort_by
    insert_by update_where ltb_codes
leased_job = refl

superseded_job :
    statuses (record_event (event "b" 2) (intent "n2" 2 true) 6 one).1 ≡ suppressed ∷ pending ∷ []
unfolding bind ◌>>=◌ ◌>>◌ return throw ensure get put settle transact rows_or branch maybe
    write_cursors write_inbox write_jobs advance_cursor start_cursor move_cursor insert_inbox
    suppress_older insert_job record_new record_event find exists update_where
superseded_job = refl

record_event-again_example :
    record_event (event "a" 1) (intent "n3" 1 false) 9 one ≡ (ok false, one)
unfolding bind ◌>>=◌ ◌>>◌ return throw ensure get put settle transact branch maybe write_cursors
    write_inbox write_jobs advance_cursor start_cursor move_cursor insert_inbox suppress_older
    insert_job record_new record_event find exists
record_event-again_example =
    record_event-again (event "a" 1) (intent "n1" 1 false) (intent "n3" 1 false) 5 9 true empty one
      refl

finish_claim-once_example :
    finish_claim "n1" "k" (try_again (pos 3)) 9 completed ≡ (err event_conflict, completed)
unfolding bind ◌>>=◌ ◌>>◌ return throw ensure get put settle transact rows_or branch maybe
    write_cursors write_inbox write_jobs advance_cursor start_cursor move_cursor insert_inbox
    suppress_older insert_job record_new record_event lease_job claim_job finish_found finish_claim
    find exists select sort_by insert_by update_where ltb_codes
finish_claim-once_example =
    finish_claim-once "n1" "k" complete (try_again (pos 3)) 7 9 leased completed refl

abbrev given_up : Database
given_up = (finish_claim "n1" "k" (give_up "blocked") 7 leased).1

-- A database that knows one identifier in two spellings.
abbrev uuid_text : String → String
uuid_text s = if s == "N1" then "n1" else s

abbrev requested : Database
requested = (request_retry uuid_text "n1" "key" "h" 8 given_up).1

abbrev job_again : JobRow
job_again = record (job_row (event "a" 1) (intent "n1" 1 false) pending none 5) {
  next_attempt_at = 8;
  updated_at = 8;
}

requested_job : statuses given_up ++ statuses requested ≡ permanently_failed ∷ pending ∷ []
unfolding bind ◌>>=◌ ◌>>◌ return throw ensure get put settle transact rows_or branch maybe
    write_cursors write_inbox write_jobs advance_cursor start_cursor move_cursor insert_inbox
    suppress_older insert_job record_new record_event lease_job claim_job finish_found finish_claim
    write_requests get_job insert_request retry_job retry_new retry_known request_retry find exists
    select sort_by insert_by update_where ltb_codes
requested_job = refl

-- The same request in the other spelling.
abbrev requested_upper : Database
requested_upper = (request_retry uuid_text "N1" "key" "h" 8 given_up).1

upper_conflict :
    request_retry uuid_text "N1" "key" "h" 9 requested_upper
    ≡ (err idempotency_conflict, requested_upper)
unfolding bind ◌>>=◌ ◌>>◌ return throw ensure get put settle transact rows_or branch maybe
    write_cursors write_inbox write_jobs advance_cursor start_cursor move_cursor insert_inbox
    suppress_older insert_job record_new record_event lease_job claim_job finish_found finish_claim
    write_requests get_job insert_request retry_job retry_new retry_known request_retry find exists
    select sort_by insert_by update_where ltb_codes
upper_conflict = refl

request_retry-again_example :
    request_retry uuid_text "n1" "key" "h" 9 requested ≡ (ok (job_again, true), requested)
unfolding bind ◌>>=◌ ◌>>◌ return throw ensure get put settle transact rows_or branch maybe
    write_cursors write_inbox write_jobs advance_cursor start_cursor move_cursor insert_inbox
    suppress_older insert_job record_new record_event lease_job claim_job finish_found finish_claim
    write_requests get_job insert_request retry_job retry_new retry_known request_retry find exists
    select sort_by insert_by update_where ltb_codes
request_retry-again_example =
    request_retry-again uuid_text "n1" "key" "h" 8 9 job_again false given_up requested refl
