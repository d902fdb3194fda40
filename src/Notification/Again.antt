-- ===== src/Notification/Again.antt =====
-- `RequestRetry` of services/notification/internal/postgres/store.go on a request that it has answered.
use vpn_platform.Prelude.{
  ℕ, String, Bool, false, true, Option, none, some, ◌≡◌, refl, ok, arith, find, ==_self, ◌==◌, err,
  inl, inr, Bool-cases, ◌||◌, if◌then◌else◌,
}
use vpn_platform.Prelude.Tables.{find-append_miss, find-eq-none, exists-false}
use vpn_platform.Store.{transact, ◌>>=◌, ◌>>◌, bind, get, put, settle, return, ensure, maybe, throw}
use vpn_platform.Store.Keeps.{Keeps, keeps_rules}
use vpn_platform.Store.Ends.{Gives, chain-Gives, read-Gives, ensure-Gives, settle-Gives, Gives-ok}
use vpn_platform.Notification.Schema.{RequestRow, JobRow, Database, not_found, idempotency_conflict}
use vpn_platform.Notification.Jobs.{write_jobs}
use vpn_platform.Notification.Requests.{
  write_requests, get_job, with_key, insert_request, retry_job, retry_new, retry_known,
  request_retry,
}

module _ (uuid_text : String → String) (id key hash : String) where
  -- Does the stored identifier read like the one of the request? After a replay it does, after a first
  -- answer if the request has it in its canonical form.
  abbrev alike : Bool → Bool
  alike known = known || uuid_text id == id

  -- The request is stored, with this hash.
  abbrev Stored : Bool → Database → Type 0
  Stored known db =
      (r : RequestRow) × (find (with_key key) db.requests ≡ some r)
      × ((r.request_sha256 == hash) ≡ true)
      × ((r.notification_id == id) ≡ alike known)

  abbrev Answers : JobRow × Bool → Database → Type 0
  Answers r db = Stored r.1 db × (get_job uuid_text id db ≡ (ok r.0, db))

  get_job-Reads : (db : Database) → Keeps (λ d. d ≡ db) (get_job uuid_text id)
  unfolding get_job
  get_job-Reads db = search keeps_rules depth 12

  -- The end of both branches.
  answered-Answers :
      (known : Bool) (db : Database)
      → Stored known db
      → Gives Answers (bind (get_job uuid_text id db) (λ j. return (j, known)))
  unfolding return
  answered-Answers known db s = read-Gives Answers _ _ db (get_job-Reads db) (λ j e. (s, e))

  abbrev row : RequestRow
  row = record { idempotency_key = key; request_sha256 = hash; notification_id = uuid_text id }

  insert_request-Stored : (db : Database) → Gives (λ a. Stored false) (insert_request row db)
  unfolding insert_request write_requests get put bind ◌>>=◌ ◌>>◌
  insert_request-Stored db =
      ensure-Gives (λ a. Stored false) _ _ _ db
        (λ e. (
          row,
          find-append_miss (with_key key) db.requests row
              (find-eq-none (with_key key) db.requests
                (exists-false (with_key key) db.requests (ground arith)))
              (==_self key),
          ==_self hash,
          refl,
        ))

  retry_job-Answers :
      (now : ℕ) (j : JobRow) (db : Database)
      → Gives Answers (retry_job uuid_text id key hash now j db)
  unfolding retry_job write_jobs get put bind ◌>>=◌ ◌>>◌
  retry_job-Answers now j db = ensure-Gives Answers _ _ _ db (λ a.
      ensure-Gives Answers _ _ _ db (λ b.
        chain-Gives Answers (λ c. Stored false) _ _ (insert_request-Stored _)
          (λ c d s. answered-Answers false d s)))

  retry_new-Answers :
      (now : ℕ) (db : Database) (o : Option JobRow)
      → Gives Answers (maybe o (throw not_found) (retry_job uuid_text id key hash now) db)
  unfolding maybe throw
  retry_new-Answers now db none = tt
  retry_new-Answers now db (some j) = retry_job-Answers now j db

  looked_up-Answers :
      (now : ℕ) (db : Database) (o : Option RequestRow)
      → find (with_key key) db.requests ≡ o
      → Gives Answers
          (maybe o (retry_new uuid_text id key hash now) (retry_known uuid_text id hash) db)
  unfolding maybe retry_new retry_known ◌>>=◌ ◌>>◌ bind get
  looked_up-Answers now db none e = retry_new-Answers now db _
  looked_up-Answers now db (some r) e =
      ensure-Gives Answers _ _ _ db
        (λ h. answered-Answers true db (r, e, ground arith, ground arith))

  request_retry-Answers :
      (now : ℕ) (db : Database) → Gives Answers (request_retry uuid_text id key hash now db)
  unfolding request_retry transact ◌>>=◌ bind get
  request_retry-Answers now db = settle-Gives Answers db _ (looked_up-Answers now db _ refl)

  Answers-again :
      (now : ℕ) (j : JobRow) (known : Bool) (db : Database)
      → Answers (j, known) db
      → request_retry uuid_text id key hash now db
        ≡ (if alike known then (ok (j, true), db) else (err idempotency_conflict, db))
  unfolding request_retry retry_known transact settle ◌>>=◌ ◌>>◌ bind get maybe ensure return throw
  Answers-again now j known db ((r, e, h, k), g) = elim (Bool-cases (alike known)) [
    | inl t ↦ rw (e, h, k, t, g) refl
    | inr t ↦ rw (e, h, k, t) refl
  ]

-- Once a request for a retry has been answered, the same request at any time leaves the database as it
-- is. It gets the same job, marked as known, if the first answer was marked so or the request names the
-- job by its canonical UUID; otherwise it ends in an idempotency conflict.
pub request_retry-again :
    (uuid_text : String → String) (id key hash : String) (now later : ℕ) (j : JobRow) (known : Bool)
    (db after : Database)
    → request_retry uuid_text id key hash now db ≡ (ok (j, known), after)
    → request_retry uuid_text id key hash later after ≡ (
        if known || uuid_text id == id
        then (ok (j, true), after)
        else (err idempotency_conflict, after))
request_retry-again uuid_text id key hash now later j known db after e =
    Answers-again uuid_text id key hash later j known after (
      Gives-ok (Answers uuid_text id key hash) _ (j, known) after e
        (request_retry-Answers uuid_text id key hash now db))
