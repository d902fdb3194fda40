-- ===== src/NodeAgent/Effect.antt =====
-- What a successful `Apply` brings about.
use vpn_platform.Prelude.{
  ℕ, ◌≡◌, refl, String, true, Option, none, some, arith, not, ==_iff, if-elim, Result, ok, err,
  subst,
}
use vpn_platform.Prelude.Int.{ℤ, pos, negsuc, ltb_ℤ, eqb_ℤ}
use vpn_platform.Prelude.Maps.{lookup, lookup-assign}
use vpn_platform.NodeAgent.Types.{DesiredState, Credential, CredentialState, ApplyResult, Failure}
use vpn_platform.NodeAgent.Service.{
  Manager, Agent, Conditions, credential_of, next_snapshot, apply, credential_state, record_journal,
  roll_back, advance, apply_new, same_desired, new_result,
}
use vpn_platform.NodeAgent.Checks.{valid_desired}

-- The answer to `CredentialState` that the request asks for.
abbrev pub wanted : DesiredState → ApplyResult → CredentialState
wanted d r = record {
  credential_id = d.credential_id;
  desired_revision = d.desired_revision;
  state = d.state;
  config_revision = r.config_revision;
}

-- On a success the wanted state is in force; a failure promises nothing.
abbrev InForce : (x : Manager) → DesiredState → Result Failure ApplyResult × Agent x → Type 0
InForce x d (ok r, b) = credential_state b.snapshot d.credential_id ≡ wanted d r
InForce x d (err f, b) = Unit {0}

eqb_ℤ_eq : (a b : ℤ) → eqb_ℤ a b ≡ true → a ≡ b
eqb_ℤ_eq (pos a) (pos b) h = ground arith
eqb_ℤ_eq (pos a) (negsuc b) h = cc
eqb_ℤ_eq (negsuc a) (pos b) h = cc
eqb_ℤ_eq (negsuc a) (negsuc b) h = ground arith

module _ (x : Manager) (max_journal : ℕ) (hash : DesiredState → String) (w : Conditions)
    (d : DesiredState) where
  record_journal-InForce :
      (h : String) (r : ApplyResult) (b : Agent x)
      → credential_state b.snapshot d.credential_id ≡ wanted d r
      → InForce x d (record_journal x max_journal hash w h r b)
  unfolding record_journal
  record_journal-InForce h r b e = if-elim (InForce x d) w.journal_saved _ _ (λ s. e) (λ s. tt)

  stored :
      (a : Agent x)
      → credential_state (next_snapshot d a.snapshot) d.credential_id
        ≡ wanted d (new_result d (next_snapshot d a.snapshot).config_revision w.now)
  unfolding credential_state
  stored a =
      rw (lookup-assign d.credential_id (credential_of d) a.snapshot.credentials, credential_state)
        refl

  advance-InForce : (a : Agent x) → InForce x d (advance x max_journal hash w d a)
  unfolding advance roll_back
  advance-InForce a =
      if-elim (InForce x d) (not (x.apply (next_snapshot d a.snapshot) a.manager).0) _ _ (λ e. tt)
        (λ e.
          if-elim (InForce x d) (not w.snapshot_saved) _ _ (λ f. tt)
            (λ f. record_journal-InForce _ _ _ (stored a)))

  unchanged :
      (a : Agent x) (c : Credential)
      → lookup d.credential_id a.snapshot.credentials ≡ some c
      → eqb_ℤ d.desired_revision c.desired_revision ≡ true
      → same_desired c d ≡ true
      → credential_state a.snapshot d.credential_id
        ≡ wanted d (new_result d a.snapshot.config_revision w.now)
  unfolding credential_state
  unchanged a c e q t =
      rw (e, credential_state)
        (ground
          (arith, eqb_ℤ_eq d.desired_revision c.desired_revision q, t, ==_iff c.state d.state))

  apply_new-InForce :
      (a : Agent x) (o : Option Credential)
      → lookup d.credential_id a.snapshot.credentials ≡ o
      → InForce x d (apply_new x max_journal hash w d a o)
  unfolding apply_new
  apply_new-InForce a none e = advance-InForce a
  apply_new-InForce a (some c) e =
      if-elim (InForce x d) (ltb_ℤ d.desired_revision c.desired_revision) _ _ (λ s. tt)
        (λ s.
          if-elim (InForce x d) (eqb_ℤ d.desired_revision c.desired_revision) _ _
            (λ q.
              if-elim (InForce x d) (same_desired c d) _ _
                (λ t. record_journal-InForce _ _ a (unchanged a c e q t)) (λ t. tt))
            (λ q. advance-InForce a))

  apply-InForce :
      (a : Agent x)
      → lookup d.operation_id a.journal ≡ none
      → InForce x d (apply x max_journal hash w d a)
  unfolding apply
  apply-InForce a e =
      if-elim (InForce x d) (not (valid_desired d)) _ _ (λ f. tt)
        (λ f. rw e (apply_new-InForce a _ refl))

  -- When `Apply` of an operation that is not in the journal succeeds, the node answers for that
  -- credential exactly with the requested revision and state, at the configuration of the result.
  pub apply_in_force :
      (a b : Agent x) (r : ApplyResult)
      → lookup d.operation_id a.journal ≡ none
      → apply x max_journal hash w d a ≡ (ok r, b)
      → credential_state b.snapshot d.credential_id ≡ wanted d r
  apply_in_force a b r e done = subst (InForce x d) done (apply-InForce a e)
