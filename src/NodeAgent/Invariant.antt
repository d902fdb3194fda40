-- ===== src/NodeAgent/Invariant.antt =====
-- The snapshot of a running agent is valid and is what the disk holds.
use vpn_platform.Prelude.{
  ℕ, suc, ◌+◌, ◌≤◌, ◌<◌, ◌≡◌, refl, sym, ap, String, true, false, some, none, if◌then◌else◌, List,
  [], ◌∷◌, arith, ◌∙◌, inl, inr, length, Bool-cases, ◌==◌, ==_iff, ==_self, subst,
}
use vpn_platform.Prelude.Int.{pos, two_63, wrap64, ◌+ℤ◌, ltb_ℤ}
use vpn_platform.Prelude.Text.{match_classes, times, is_hex, in_range}
use vpn_platform.Prelude.Maps.{assign}
use vpn_platform.NodeAgent.Types.{DesiredState, Credential, Snapshot}
use vpn_platform.NodeAgent.Checks.{
  is_uuid, valid_desired, valid_entry, valid_entries, valid_snapshot,
}
use vpn_platform.NodeAgent.Service.{
  Manager, Agent, Conditions, credential_of, next_snapshot, apply, restart, Encoding, readable,
}
use vpn_platform.NodeAgent.Changes.{Change, apply-Change}

-- `n` bounds the number of configurations so far.
pub record IsSound (x : Manager) (n : ℕ) (a : Agent x) : Type 0 where
  pub same : a.saved_snapshot ≡ a.snapshot
  pub valid : valid_snapshot a.snapshot ≡ true
  pub revision : ℕ
  pub exact : a.snapshot.config_revision ≡ pos revision
  pub bounded : revision ≤ n

valid_entries-assign :
    (k : String) (c : Credential) (es : List (String × Credential))
    → valid_entry (k, c) ≡ true
    → valid_entries es ≡ true
    → valid_entries (assign k c es) ≡ true
unfolding valid_entries assign
valid_entries-assign k c [] h v = ground (arith, h)
valid_entries-assign k c (e ∷ es) h v = ground (arith, h, v, valid_entries-assign k c es h)

not_both : (s : String) → (s == "present") ≡ true → (s == "absent") ≡ false
not_both s h = ap (λ t. t == "absent") ((==_iff s "present").0 h)

nil_uuid : is_uuid "00000000-0000-4000-8000-000000000000" ≡ true
unfolding is_uuid match_classes times is_hex in_range
nil_uuid = refl

valid_entry-credential_of :
    (d : DesiredState)
    → valid_desired d ≡ true
    → valid_entry (d.credential_id, credential_of d) ≡ true
unfolding valid_desired
valid_entry-credential_of d v = elim (Bool-cases (d.state == "absent")) [
  | inl e ↦
      rw e (ground (arith, v, e, nil_uuid, ==_self d.credential_id, ==_self "", not_both d.state))
  | inr e ↦ rw e (ground (arith, v, e, nil_uuid, ==_self d.credential_id))
]

wrap64_succ : (n : ℕ) → suc n < two_63 → wrap64 (pos n +ℤ pos 1) ≡ pos (suc n)
wrap64_succ n h = ground arith

next_snapshot-valid :
    (d : DesiredState) (s : Snapshot) (n : ℕ)
    → valid_desired d ≡ true
    → valid_snapshot s ≡ true
    → s.config_revision ≡ pos n
    → suc n < two_63
    → (valid_snapshot (next_snapshot d s) ≡ true)
      × ((next_snapshot d s).config_revision ≡ pos (suc n))
unfolding valid_snapshot
next_snapshot-valid d s n v h e b =
    let next : wrap64 (s.config_revision +ℤ pos 1) ≡ pos (suc n) =
      ap (λ z. wrap64 (z +ℤ pos 1)) e ∙ wrap64_succ n b in
    (
      rw next (
          ground (
            arith,
            h,
            valid_entries-assign d.credential_id (credential_of d) s.credentials
                (valid_entry-credential_of d v),
          )),
      next,
    )

not_negative : (n : ℕ) → ltb_ℤ (pos n) (pos 0) ≡ false
not_negative n = ground arith

node_uuid : (s : Snapshot) → valid_snapshot s ≡ true → is_uuid s.node_id ≡ true
unfolding valid_snapshot
node_uuid s h = ground (arith, h)

module _ (x : Manager) (max_journal : ℕ) (hash : DesiredState → String) where
  changed-IsSound :
      (n : ℕ) (d : DesiredState) (a : Agent x) (w : Conditions)
      → suc n < two_63
      → IsSound x n a
      → Change x max_journal hash w d a (apply x max_journal hash w d a)
      → IsSound x (suc n) (apply x max_journal hash w d a).1
  changed-IsSound n d a w b i (inl k) = record {
    same = k.saved_same ∙ (i.same ∙ sym k.snapshot_same);
    valid = ap valid_snapshot k.snapshot_same ∙ i.valid;
    revision = i.revision;
    exact = ap (λ s. s.config_revision) k.snapshot_same ∙ i.exact;
    bounded = omega (arith, i.bounded);
  }
  changed-IsSound n d a w b i (inr m) =
      let next =
        next_snapshot-valid d a.snapshot i.revision m.valid i.valid i.exact
          (omega (arith, i.bounded)) in
      record {
        same = m.saved_next ∙ sym m.snapshot_next;
        valid = ap valid_snapshot m.snapshot_next ∙ next.0;
        revision = suc i.revision;
        exact = ap (λ s. s.config_revision) m.snapshot_next ∙ next.1;
        bounded = omega (arith, i.bounded);
      }

  -- A history of calls of `Apply`.
  unfoldable pub run_applies : List (Conditions × DesiredState) → Agent x → Agent x
  run_applies [] a = a
  run_applies (c ∷ cs) a = run_applies cs (apply x max_journal hash c.0 c.1 a).1

  run_applies-IsSound :
      (cs : List (Conditions × DesiredState)) (n : ℕ) (a : Agent x)
      → length cs + n < two_63
      → IsSound x n a
      → IsSound x (length cs + n) (run_applies cs a)
  unfolding run_applies
  run_applies-IsSound [] n a b i = subst (λ m. IsSound x m a) (omega arith) i
  run_applies-IsSound (c ∷ cs) n a b i =
      subst (λ m. IsSound x m (run_applies cs (apply x max_journal hash c.0 c.1 a).1)) (omega arith)
        (run_applies-IsSound cs (suc n) (apply x max_journal hash c.0 c.1 a).1 (omega (arith, b)) (
          changed-IsSound n c.1 a c.0 (omega (arith, b)) i
            (apply-Change x max_journal hash c.0 c.1 a)))

  -- From an agent whose valid snapshot is on disk, after any history of calls of `Apply`, failing ones
  -- included and shorter than the word size allows, a restart of the node, with a version and with Xray
  -- starting, succeeds exactly if the texts of both files are within 16 MiB, and then goes on with the
  -- very snapshot that was in force and with the journal on disk.
  pub restart-run_applies :
      (enc : Encoding) (cs : List (Conditions × DesiredState)) (n : ℕ) (a : Agent x)
      (version : String)
      → length cs + n < two_63
      → IsSound x n a
      → (version == "") ≡ false
      → ((s : Snapshot) (m : x.State) → (x.start s m).0 ≡ true)
      → (b : Agent x) × (restart x enc
            (run_applies cs a).snapshot.node_id
            version
            (run_applies cs a)
          ≡ (if readable enc (run_applies cs a).snapshot (run_applies cs a).saved_journal
              then some b
              else none))
        × (b.snapshot ≡ (run_applies cs a).snapshot)
        × (b.journal ≡ (run_applies cs a).saved_journal)
  unfolding restart
  restart-run_applies enc cs n a version b i v starts =
      let c = run_applies cs a in
      let k = run_applies-IsSound cs n a b i in
      let started = x.start c.saved_snapshot c.manager in
      let own = node_uuid c.snapshot k.valid in
      let saved : valid_snapshot c.saved_snapshot ≡ true = ap valid_snapshot k.same ∙ k.valid in
      let node : (c.saved_snapshot.node_id == c.snapshot.node_id) ≡ true =
        ap (λ s. s.node_id == c.snapshot.node_id) k.same ∙ ==_self c.snapshot.node_id in
      let counted : ltb_ℤ c.saved_snapshot.config_revision (pos 0) ≡ false =
        ap (λ s. ltb_ℤ s.config_revision (pos 0)) k.same
        ∙ (ap (λ z. ltb_ℤ z (pos 0)) k.exact ∙ not_negative k.revision) in
      let read : readable enc c.saved_snapshot c.saved_journal
          ≡ readable enc c.snapshot c.saved_journal =
        ap (λ s. readable enc s c.saved_journal) k.same in
      (
        record c { snapshot = c.saved_snapshot; journal = c.saved_journal; manager = started.1 },
        rw (own, v, node, saved, counted, starts c.saved_snapshot c.manager, ← read) (ground arith),
        k.same,
        refl,
      )
