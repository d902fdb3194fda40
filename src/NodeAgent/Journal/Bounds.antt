-- ===== src/NodeAgent/Journal/Bounds.antt =====
-- The size of the journal.
use vpn_platform.Prelude.{
  ℕ, zero, suc, ◌≤◌, ◌<◌, ◌≡◌, String, true, List, [], ◌∷◌, length, exists, ◌==◌, ==_self, arith,
}
use vpn_platform.Prelude.Maps.{delete}
use vpn_platform.NodeAgent.Types.{JournalEntry}
use vpn_platform.NodeAgent.Journal.{oldest, evict, trim_loop, trim}

length-delete_le :
    (k : String) (es : List (String × JournalEntry)) → length (delete k es) ≤ length es
unfolding delete
length-delete_le k [] = omega arith
length-delete_le k (e ∷ es) = ground (arith, length-delete_le k es)

length-delete :
    (k : String) (es : List (String × JournalEntry))
    → exists (λ e. e.0 == k) es ≡ true
    → length (delete k es) < length es
unfolding delete exists
length-delete k [] h = cc
length-delete k (e ∷ es) h = ground (arith, length-delete k es, length-delete_le k es)

exists-oldest :
    (e : String × JournalEntry) (es : List (String × JournalEntry))
    → exists (λ f. f.0 == oldest e es) (e ∷ es) ≡ true
unfolding oldest exists
exists-oldest e [] = ground (arith, ==_self e.0)
exists-oldest e (f ∷ fs) = ground (arith, exists-oldest e fs, exists-oldest f fs)

length-evict : (es : List (String × JournalEntry)) → 0 < length es → length (evict es) < length es
length-evict [] h = absurd (omega arith)
length-evict (e ∷ es) h = length-delete (oldest e es) (e ∷ es) (exists-oldest e es)

length-trim_loop :
    (m n : ℕ) (es : List (String × JournalEntry)) → length es ≤ n → length (trim_loop m n es) ≤ m
unfolding trim_loop
length-trim_loop m zero es h = omega arith
length-trim_loop m (suc n) es h = ground (arith, length-evict es, length-trim_loop m n (evict es))

-- The loop that trims the journal ends with at most the configured number of entries; it gets fuel for
-- one round for each entry, which is enough.
pub length-trim :
    (max_journal : ℕ) (es : List (String × JournalEntry))
    → length (trim max_journal es) ≤ max_journal
unfolding trim
length-trim max_journal es = length-trim_loop max_journal (length es) es (omega arith)
