-- ===== src/NodeAgent/Revisions.antt =====
-- The desired revisions of a node's credentials.
use vpn_platform.Prelude.{
  ℕ, ◌≡◌, refl, sym, ap, subst, String, true, false, some, List, [], ◌∷◌, arith, ◌∙◌, inl, inr,
  Bool-cases, ◌==◌, ==_iff,
}
use vpn_platform.Prelude.Int.{ℤ, pos, negsuc, ltb_ℤ}
use vpn_platform.Prelude.Maps.{lookup, assign, lookup-assign, lookup-assign_other}
use vpn_platform.NodeAgent.Types.{DesiredState, Credential}
use vpn_platform.NodeAgent.Service.{Manager, Agent, Conditions, credential_of, apply}
use vpn_platform.NodeAgent.Changes.{Change, apply-Change}
use vpn_platform.NodeAgent.Invariant.{run_applies}

-- Each credential that is known stays known, at no smaller revision.
pub record NotBehind (old new : List (String × Credential)) : Type 0 where
  pub at :
      (id : String) (c : Credential)
      → lookup id old ≡ some c
      → (k : Credential) × (lookup id new ≡ some k)
        × (ltb_ℤ k.desired_revision c.desired_revision ≡ false)

ltb_ℤ_irrefl : (a : ℤ) → ltb_ℤ a a ≡ false
ltb_ℤ_irrefl (pos a) = ground arith
ltb_ℤ_irrefl (negsuc a) = ground arith

ltb_ℤ_asym : (a b : ℤ) → ltb_ℤ a b ≡ true → ltb_ℤ b a ≡ false
ltb_ℤ_asym (pos a) (pos b) h = ground arith
ltb_ℤ_asym (pos a) (negsuc b) h = cc
ltb_ℤ_asym (negsuc a) (pos b) h = refl
ltb_ℤ_asym (negsuc a) (negsuc b) h = ground arith

ltb_ℤ_trans : (a b c : ℤ) → ltb_ℤ b a ≡ false → ltb_ℤ c b ≡ false → ltb_ℤ c a ≡ false
ltb_ℤ_trans (pos a) (pos b) (pos c) h k = ground arith
ltb_ℤ_trans (pos a) (pos b) (negsuc c) h k = cc
ltb_ℤ_trans (pos a) (negsuc b) c h k = cc
ltb_ℤ_trans (negsuc a) (pos b) (pos c) h k = refl
ltb_ℤ_trans (negsuc a) (pos b) (negsuc c) h k = cc
ltb_ℤ_trans (negsuc a) (negsuc b) (pos c) h k = refl
ltb_ℤ_trans (negsuc a) (negsuc b) (negsuc c) h k = ground arith

NotBehind-refl : (s : List (String × Credential)) → NotBehind s s
NotBehind-refl s = record { at = λ id c h. (c, h, ltb_ℤ_irrefl c.desired_revision) }

NotBehind-trans :
    (r s t : List (String × Credential)) → NotBehind r s → NotBehind s t → NotBehind r t
NotBehind-trans r s t h k = record {
  at = λ id c e.
      let (d, f, lo) = h.at id c e in
      let (g, m, hi) = k.at id d f in
      (g, m, ltb_ℤ_trans c.desired_revision d.desired_revision g.desired_revision lo hi);
}

NotBehind-assign :
    (d : DesiredState) (s : List (String × Credential))
    → ((c : Credential)
        → lookup d.credential_id s ≡ some c
        → ltb_ℤ c.desired_revision d.desired_revision ≡ true)
    → NotBehind s (assign d.credential_id (credential_of d) s)
NotBehind-assign d s n = record {
  at = λ id c e. elim (Bool-cases (d.credential_id == id)) [
    | inl q ↦
        let same : d.credential_id ≡ id = (==_iff d.credential_id id).0 q in
        (
          credential_of d,
          subst
              (λ j. lookup j (assign d.credential_id (credential_of d) s) ≡ some (credential_of d))
              same (lookup-assign d.credential_id (credential_of d) s),
          ltb_ℤ_asym c.desired_revision d.desired_revision (n c (ap (λ j. lookup j s) same ∙ e)),
        )
    | inr q ↦ (
      c,
      lookup-assign_other d.credential_id id (credential_of d) s q ∙ e,
      ltb_ℤ_irrefl c.desired_revision,
    )
  ];
}

module _ (x : Manager) (max_journal : ℕ) (hash : DesiredState → String) where
  changed-NotBehind :
      (w : Conditions) (d : DesiredState) (a : Agent x)
      → Change x max_journal hash w d a (apply x max_journal hash w d a)
      → NotBehind a.snapshot.credentials (apply x max_journal hash w d a).1.snapshot.credentials
  changed-NotBehind w d a (inl k) =
      subst (λ s. NotBehind a.snapshot.credentials s.credentials) (sym k.snapshot_same)
        (NotBehind-refl a.snapshot.credentials)
  changed-NotBehind w d a (inr m) =
      subst (λ s. NotBehind a.snapshot.credentials s.credentials) (sym m.snapshot_next)
        (NotBehind-assign d a.snapshot.credentials m.newer)

  -- No history of calls of `Apply`, failing ones included, loses a credential or takes it back to a
  -- smaller desired revision.
  pub run_applies-NotBehind :
      (cs : List (Conditions × DesiredState)) (a : Agent x)
      → NotBehind a.snapshot.credentials (run_applies x max_journal hash cs a).snapshot.credentials
  unfolding run_applies
  run_applies-NotBehind [] a = NotBehind-refl a.snapshot.credentials
  run_applies-NotBehind (c ∷ cs) a =
      NotBehind-trans _ _ _
        (changed-NotBehind c.0 c.1 a (apply-Change x max_journal hash c.0 c.1 a))
        (run_applies-NotBehind cs (apply x max_journal hash c.0 c.1 a).1)
