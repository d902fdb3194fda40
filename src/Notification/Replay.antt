-- ===== src/Notification/Replay.antt =====
-- `RecordEvent` of services/notification/internal/postgres/store.go on an event that it has recorded.
use vpn_platform.Prelude.{
  ℕ, List, Bool, false, true, Option, none, some, ◌≡◌, refl, ok, find, ==_self, ◌==◌,
}
use vpn_platform.Prelude.Tables.{find-append_miss}
use vpn_platform.Store.{transact, ◌>>=◌, ◌>>◌, bind, get, put, settle, return, ensure, maybe}
use vpn_platform.Store.Keeps.{Keeps, keeps_rules, put-Keeps}
use vpn_platform.Store.Ends.{
  Gives, step-Gives, ensure-Gives, settle-Gives, Gives-ok, chain-Gives, Keeps-Gives,
}
use vpn_platform.Notification.Schema.{
  EventMeta, Intent, CursorRow, InboxRow, JobRow, Database, event_conflict,
}
use vpn_platform.Notification.Jobs.{
  write_cursors, write_inbox, write_jobs, start_cursor, move_cursor, advance_cursor, with_event,
  inbox_row, insert_inbox, suppress_older, insert_job, record_new, record_event,
}

module _ (m : EventMeta) where
  abbrev New : Database → Type 0
  New db = find (with_event m.event_id) db.inbox ≡ none

  -- The event is in the inbox, with its hash.
  abbrev Recorded : Database → Type 0
  Recorded db =
      (r : InboxRow) × (find (with_event m.event_id) db.inbox ≡ some r)
      × ((r.payload_sha256 == m.payload_sha256) ≡ true)

  write_cursors-New : (f : List CursorRow → List CursorRow) → Keeps New (write_cursors f)
  unfolding write_cursors
  write_cursors-New f = put-Keeps _ (λ db h. h)

  write_jobs-Recorded : (f : List JobRow → List JobRow) → Keeps Recorded (write_jobs f)
  unfolding write_jobs
  write_jobs-Recorded f = put-Keeps _ (λ db h. h)

  advance_cursor-Keeps : Keeps New (advance_cursor m)
  unfolding advance_cursor start_cursor move_cursor
  advance_cursor-Keeps = search (keeps_rules, write_cursors-New) depth 14

  insert_job-Keeps : (i : Intent) (now : ℕ) → Keeps Recorded (insert_job m i now)
  unfolding insert_job suppress_older
  insert_job-Keeps i now = search (keeps_rules, write_jobs-Recorded) depth 14

  insert_inbox-Recorded :
      (i : Intent) (db : Database)
      → New db
      → Gives (λ a. Recorded) (insert_inbox (inbox_row m i) db)
  unfolding insert_inbox write_inbox get put bind ◌>>=◌ ◌>>◌
  insert_inbox-Recorded i db new =
      ensure-Gives (λ a. Recorded) _ _ _ db
        (λ e. (
          inbox_row m i,
          find-append_miss (with_event m.event_id) db.inbox (inbox_row m i) new
              (==_self m.event_id),
          ==_self m.payload_sha256,
        ))

  record_new-Recorded :
      (i : Intent) (now : ℕ) (db : Database)
      → New db
      → Gives (λ a. Recorded) (record_new m i now db)
  unfolding record_new ◌>>◌ ◌>>=◌
  record_new-Recorded i now db new =
      step-Gives (λ a. Recorded) New _ _ db advance_cursor-Keeps new
        (λ a d n.
          chain-Gives (λ a. Recorded) (λ a. Recorded) _ _ (insert_inbox-Recorded i d n)
            (λ a e r. Keeps-Gives Recorded e (insert_job-Keeps i now) r))

  looked_up-Recorded :
      (i : Intent) (now : ℕ) (db : Database) (o : Option InboxRow)
      → find (with_event m.event_id) db.inbox ≡ o
      → Gives
          (λ a. Recorded)
          (maybe o
            (record_new m i now)
            (λ r. do ensure (r.payload_sha256 == m.payload_sha256) event_conflict; return false)
            db)
  unfolding maybe ◌>>◌ ◌>>=◌ return
  looked_up-Recorded i now db none e = record_new-Recorded i now db e
  looked_up-Recorded i now db (some r) e = ensure-Gives (λ a. Recorded) _ _ _ db (λ h. (r, e, h))

  record_event-Recorded :
      (i : Intent) (now : ℕ) (db : Database) → Gives (λ a. Recorded) (record_event m i now db)
  unfolding record_event transact ◌>>=◌ bind get
  record_event-Recorded i now db =
      settle-Gives (λ a. Recorded) db _ (looked_up-Recorded i now db _ refl)

  Recorded-again :
      (i : Intent) (now : ℕ) (db : Database)
      → Recorded db
      → record_event m i now db ≡ (ok false, db)
  unfolding record_event transact settle ◌>>=◌ ◌>>◌ bind get maybe ensure return
  Recorded-again i now db (r, e, h) = rw (e, h) refl

-- Once an event has been recorded, the same event again, with any intent and at any time, is answered
-- as known and leaves the database as it is.
pub record_event-again :
    (m : EventMeta) (i other : Intent) (now later : ℕ) (new : Bool) (db after : Database)
    → record_event m i now db ≡ (ok new, after)
    → record_event m other later after ≡ (ok false, after)
record_event-again m i other now later new db after e =
    Recorded-again m other later after
      (Gives-ok (λ a. Recorded m) _ new after e (record_event-Recorded m i now db))
