-- ===== src/Subscription/Transaction.antt =====
-- The transactions of the subscription store. The advisory locks and row locks of the source make
-- concurrent transactions on one user run one after the other.
pub mod Keeps
use vpn_platform.Prelude.{ℕ, Bool, Result, Option, none, some, String, List}
use vpn_platform.Subscription.Types.{Error, internal}
use vpn_platform.Subscription.Schema.{
  Database, InboxRow, OutboxRow, SubscriptionRow, PeriodRow, DeadLetterRow, AdminRevokeRow,
}
use vpn_platform.Store
use vpn_platform.Store.{combinators}
unfoldable pub use vpn_platform.Store.{
  bind, ◌>>=◌, ◌>>◌, return, throw, ensure, get, put, handle, catch, settle, transact, rows_or,
  branch, maybe, fetched, add_duration,
}

abbrev pub Tx : Type 0 → Type 0
Tx A = Store.Tx Error Database A

-- The writes to one table each.
unfoldable pub write_inbox : (List InboxRow → List InboxRow) → Tx (Unit {0})
write_inbox f = put (λ db. record db { inbox = f db.inbox })

unfoldable pub write_outbox : (List OutboxRow → List OutboxRow) → Tx (Unit {0})
write_outbox f = put (λ db. record db { outbox = f db.outbox })

unfoldable pub write_subscriptions : (List SubscriptionRow → List SubscriptionRow) → Tx (Unit {0})
write_subscriptions f = put (λ db. record db { subscriptions = f db.subscriptions })

unfoldable pub write_periods : (List PeriodRow → List PeriodRow) → Tx (Unit {0})
write_periods f = put (λ db. record db { periods = f db.periods })

unfoldable pub write_dead_letters : (List DeadLetterRow → List DeadLetterRow) → Tx (Unit {0})
write_dead_letters f = put (λ db. record db { dead_letters = f db.dead_letters })

unfoldable pub write_admin_revokes : (List AdminRevokeRow → List AdminRevokeRow) → Tx (Unit {0})
write_admin_revokes f = put (λ db. record db { admin_revokes = f db.admin_revokes })

-- The two clocks of a transaction: `now()`, its start, which the columns' defaults take, and what
-- `transactionTime` gives (the database's `clock_timestamp()`).
pub record Clock : Type 0 where
  pub started_at : ℕ
  pub now : ℕ

-- `cryptoutil.RandomUUID`: its text, or nothing where the random source fails.
unfoldable pub random_uuid : Option String → Tx String
random_uuid none = throw (internal "generate UUID")
random_uuid (some id) = return id

-- Opens all of them at once.
unfoldable pub transactions : Unit {0}
unfolding combinators random_uuid write_inbox write_outbox write_subscriptions write_periods
    write_dead_letters write_admin_revokes
transactions = tt
