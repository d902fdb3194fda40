-- ===== src/NodeAgent/Changes.antt =====
-- What one call of `Apply` changes.
use vpn_platform.Prelude.{
  ℕ, ◌≡◌, refl, String, true, false, Result, err, Option, none, some, arith, if-elim, ◌∙◌, ◌⊎◌, inl,
  inr, Bool-cases, not,
}
use vpn_platform.Prelude.Int.{ltb_ℤ, eqb_ℤ, ℤ, pos, negsuc}
use vpn_platform.Prelude.Maps.{lookup}
use vpn_platform.NodeAgent.Types.{
  Failure, not_journaled, DesiredState, ApplyResult, Credential, JournalEntry,
}
use vpn_platform.NodeAgent.Checks.{valid_desired}
use vpn_platform.NodeAgent.Service.{
  Manager, Agent, Conditions, next_snapshot, record_journal, roll_back, advance, apply_new, replay,
  apply, same_desired,
}

-- The snapshot stays, in memory and on disk.
pub record Kept (x : Manager) (a b : Agent x) : Type 0 where
  pub snapshot_same : b.snapshot ≡ a.snapshot
  pub saved_same : b.saved_snapshot ≡ a.saved_snapshot

-- A valid request with a newer revision takes effect, in memory and on disk; at most the journal is
-- not written.
pub record Moved (x : Manager) (d : DesiredState) (a : Agent x)
    (r : Result Failure ApplyResult × Agent x) : Type 0 where
  pub valid : valid_desired d ≡ true
  pub newer :
      (c : Credential)
      → lookup d.credential_id a.snapshot.credentials ≡ some c
      → ltb_ℤ c.desired_revision d.desired_revision ≡ true
  pub snapshot_next : r.1.snapshot ≡ next_snapshot d a.snapshot
  pub saved_next : r.1.saved_snapshot ≡ next_snapshot d a.snapshot
  pub settled : (f : Failure) → r.0 ≡ err f → f ≡ not_journaled

ltb_ℤ_total : (a b : ℤ) → ltb_ℤ a b ≡ false → eqb_ℤ a b ≡ false → ltb_ℤ b a ≡ true
ltb_ℤ_total (pos a) (pos b) h k = ground (arith)
ltb_ℤ_total (pos a) (negsuc b) h k = refl
ltb_ℤ_total (negsuc a) (pos b) h k = ground (arith)
ltb_ℤ_total (negsuc a) (negsuc b) h k = ground (arith)

module _ (x : Manager) (max_journal : ℕ) (hash : DesiredState → String) (w : Conditions) where
  record_journal-same :
      (h : String) (r : ApplyResult) (a : Agent x)
      → ((record_journal x max_journal hash w h r a).1.snapshot ≡ a.snapshot)
        × ((record_journal x max_journal hash w h r a).1.saved_snapshot ≡ a.saved_snapshot)
  unfolding record_journal
  record_journal-same h r a = elim (Bool-cases w.journal_saved) [
    | inl e ↦ (rw e refl, rw e refl)
    | inr e ↦ (rw e refl, rw e refl)
  ]

  record_journal-settled :
      (h : String) (r : ApplyResult) (a : Agent x) (f : Failure)
      → (record_journal x max_journal hash w h r a).0 ≡ err f
      → f ≡ not_journaled
  unfolding record_journal
  record_journal-settled h r a f e = elim (Bool-cases w.journal_saved) [
    | inl s ↦ ground (arith, s, e)
    | inr s ↦ ground (arith, s, e)
  ]

  roll_back-Kept : (m : x.State) (a : Agent x) → Kept x a (roll_back x max_journal hash m a).1
  unfolding roll_back
  roll_back-Kept m a = record { snapshot_same = refl; saved_same = refl }

  -- One of the two happens.
  abbrev pub Change : DesiredState → Agent x → Result Failure ApplyResult × Agent x → Type 0
  Change d a r = Kept x a r.1 ⊎ Moved x d a r

  moved :
      (d : DesiredState) (a b : Agent x) (h : String) (res : ApplyResult)
      → valid_desired d ≡ true
      → ((c : Credential)
          → lookup d.credential_id a.snapshot.credentials ≡ some c
          → ltb_ℤ c.desired_revision d.desired_revision ≡ true)
      → b.snapshot ≡ next_snapshot d a.snapshot
      → b.saved_snapshot ≡ next_snapshot d a.snapshot
      → Moved x d a (record_journal x max_journal hash w h res b)
  moved d a b h res v n e k = record {
    valid = v;
    newer = n;
    snapshot_next = (record_journal-same h res b).0 ∙ e;
    saved_next = (record_journal-same h res b).1 ∙ k;
    settled = record_journal-settled h res b;
  }

  advance-Change :
      (d : DesiredState) (a : Agent x)
      → valid_desired d ≡ true
      → ((c : Credential)
          → lookup d.credential_id a.snapshot.credentials ≡ some c
          → ltb_ℤ c.desired_revision d.desired_revision ≡ true)
      → Change d a (advance x max_journal hash w d a)
  unfolding advance
  advance-Change d a v n =
      let applied = x.apply (next_snapshot d a.snapshot) a.manager in
      if-elim (Change d a) (not applied.0) _ _
        (λ e. inl (record { snapshot_same = refl; saved_same = refl }))
        (λ e.
          if-elim (Change d a) (not w.snapshot_saved) _ _ (λ f. inl (roll_back-Kept applied.1 a))
            (λ f. inr (moved d a _ _ _ v n refl refl)))

  -- The one stored credential is older.
  older :
      (d : DesiredState) (a : Agent x) (c : Credential)
      → lookup d.credential_id a.snapshot.credentials ≡ some c
      → ltb_ℤ d.desired_revision c.desired_revision ≡ false
      → eqb_ℤ d.desired_revision c.desired_revision ≡ false
      → (k : Credential) → lookup d.credential_id a.snapshot.credentials ≡ some k
      → ltb_ℤ k.desired_revision d.desired_revision ≡ true
  older d a c e s q k h =
      ground (arith, e, h, ltb_ℤ_total d.desired_revision c.desired_revision s q)

  apply_new-Change :
      (d : DesiredState) (a : Agent x) (o : Option Credential)
      → valid_desired d ≡ true
      → lookup d.credential_id a.snapshot.credentials ≡ o
      → Change d a (apply_new x max_journal hash w d a o)
  unfolding apply_new
  apply_new-Change d a none v e = advance-Change d a v (λ c h. ground (arith, e, h))
  apply_new-Change d a (some c) v e =
      if-elim (Change d a) (ltb_ℤ d.desired_revision c.desired_revision) _ _
        (λ s. inl (record { snapshot_same = refl; saved_same = refl }))
        (λ s.
          if-elim (Change d a) (eqb_ℤ d.desired_revision c.desired_revision) _ _
            (λ q.
              if-elim (Change d a) (same_desired c d) _ _
                (λ t. inl (record {
                  snapshot_same = (record_journal-same _ _ a).0;
                  saved_same = (record_journal-same _ _ a).1;
                }))
                (λ t. inl (record { snapshot_same = refl; saved_same = refl })))
            (λ q. advance-Change d a v (older d a c e s q)))

  known-Change :
      (d : DesiredState) (a : Agent x) (o : Option JournalEntry)
      → valid_desired d ≡ true
      → Change d a (elim o [
        | some e ↦ replay x max_journal hash d e a
        | none ↦ apply_new x max_journal hash w d a (lookup d.credential_id a.snapshot.credentials)
      ])
  unfolding replay
  known-Change d a none v = apply_new-Change d a _ v refl
  known-Change d a (some e) v = inl (record { snapshot_same = refl; saved_same = refl })

  -- A call of `Apply`, on every path, leaves the snapshot in memory and on disk as it was, or it is a
  -- valid request for a revision above the stored one that both snapshots take over; an error other
  -- than that of the journal's file comes only with the first.
  pub apply-Change : (d : DesiredState) (a : Agent x) → Change d a (apply x max_journal hash w d a)
  unfolding apply
  apply-Change d a =
      if-elim (Change d a) (not (valid_desired d)) _ _
        (λ e. inl (record { snapshot_same = refl; saved_same = refl }))
        (λ e. known-Change d a (lookup d.operation_id a.journal) (ground (arith, e)))
