-- ===== src/NodeAgent/Journal.antt =====
-- The journal of operations: `recordJournal` of services/node-agent/internal/application/service.go and
-- `SaveJournal` of services/node-agent/internal/state/store.go.
pub mod Bounds
use vpn_platform.Prelude.{ℕ, zero, suc, String, Bool, List, [], ◌∷◌, ltb, length, if◌then◌else◌}
use vpn_platform.Prelude.Maps.{delete}
use vpn_platform.NodeAgent.Types.{JournalEntry}

-- The key of the entry that was completed first: the first of those, where Go's iteration takes any.
unfoldable pub oldest : String × JournalEntry → List (String × JournalEntry) → String
oldest e [] = e.0
oldest e (f ∷ fs) = oldest (if ltb f.1.completed_at e.1.completed_at then f else e) fs

abbrev pub evict : List (String × JournalEntry) → List (String × JournalEntry)
evict [] = []
evict (e ∷ es) = delete (oldest e es) (e ∷ es)

-- `for len(journal.Entries) > s.maxJournal`, on fuel.
unfoldable pub trim_loop : ℕ → ℕ → List (String × JournalEntry) → List (String × JournalEntry)
trim_loop max_journal zero es = es
trim_loop max_journal (suc n) es =
    let rest = trim_loop max_journal n (evict es) in
    if ltb max_journal (length es) then rest else es

-- What `SaveJournal` leaves of the entries, in memory as on disk: both are the one map.
unfoldable pub trim : ℕ → List (String × JournalEntry) → List (String × JournalEntry)
trim max_journal es = trim_loop max_journal (length es) es
