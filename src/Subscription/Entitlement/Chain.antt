-- ===== src/Subscription/Entitlement/Chain.antt =====
-- The loops of `calculateEntitlement`: the choice of the base and the chain behind it.
use vpn_platform.Prelude.{
  ℕ, ◌≤◌, ◌<◌, ◌≡◌, ◌⊎◌, inl, inr, Bool, true, false, List, [], ◌∷◌, arith, if◌then◌else◌,
  Bool-cases, if-elim, All, exists, refl,
}
use vpn_platform.Subscription.Schema.{PeriodRow}
use vpn_platform.Subscription.Entitlement.{last_match, extend_chain, select_base, covers, in_grace}

module _ (P : PeriodRow → Type 0) (test : PeriodRow → Bool) where
  -- What the loop returns is a period of the list with those behind it, or the old base.
  pub All-last_match :
      (base : PeriodRow × List PeriodRow) (ps : List PeriodRow)
      → All P (base.0 ∷ base.1)
      → All P ps
      → All P ((last_match test base ps).0 ∷ (last_match test base ps).1)
  unfolding last_match
  All-last_match base [] h k = h
  All-last_match base (p ∷ ps) h k =
      All-last_match (if test p then (p, ps) else base) ps
        (if-elim (λ b. All P (b.0 ∷ b.1)) (test p) (p, ps) base (λ _. k) (λ _. h)) k.1

module _ (test : PeriodRow → Bool) where
  pub last_match-passes :
      (base : PeriodRow × List PeriodRow) (ps : List PeriodRow)
      → (test base.0 ≡ true) ⊎ (exists test ps ≡ true)
      → test (last_match test base ps).0 ≡ true
  unfolding last_match exists
  last_match-passes base [] (inl h) = h
  last_match-passes base [] (inr h) = cc
  last_match-passes base (p ∷ ps) h =
      last_match-passes (if test p then (p, ps) else base) ps (ground arith)

  pub last_match_miss :
      (base : PeriodRow × List PeriodRow) (ps : List PeriodRow)
      → exists test ps ≡ false
      → last_match test base ps ≡ base
  unfolding last_match exists
  last_match_miss base [] h = refl
  last_match_miss base (p ∷ ps) h = elim (Bool-cases (test p)) [
    | inl e ↦ ground arith
    | inr e ↦ rw e (last_match_miss base ps (ground arith))
  ]

-- The chain never ends before the period that it starts from.
pub le-extend_chain : (end g : ℕ) (ps : List PeriodRow) → end ≤ (extend_chain end g ps).0
unfolding extend_chain
le-extend_chain end g [] = omega arith
le-extend_chain end g (p ∷ ps) =
    ground (arith, le-extend_chain p.period_end p.grace_ends_at ps, le-extend_chain end g ps)

-- Its grace is that of a valid period.
pub lt-extend_chain :
    (now end g : ℕ) (ps : List PeriodRow)
    → now < g
    → All (λ p. now < p.grace_ends_at) ps
    → now < (extend_chain end g ps).1
unfolding extend_chain
lt-extend_chain now end g [] h k = h
lt-extend_chain now end g (p ∷ ps) h k = ground (
  arith,
  lt-extend_chain now p.period_end p.grace_ends_at ps k.0 k.1,
  lt-extend_chain now end g ps h k.1,
)

-- A chain that has ended reaches no later instant, unless a period covers it.
pub extend_chain_ended :
    (now end g : ℕ) (ps : List PeriodRow)
    → end ≤ now
    → All (λ p. covers now p ≡ false) ps
    → (extend_chain end g ps).0 ≤ now
unfolding extend_chain
extend_chain_ended now end g [] h k = h
extend_chain_ended now end g (p ∷ ps) h k = ground (
  arith,
  k.0,
  extend_chain_ended now p.period_end p.grace_ends_at ps,
  extend_chain_ended now end g ps h k.1,
  k.1,
)

module _ (P : PeriodRow → Type 0) (now : ℕ) (p : PeriodRow) (ps : List PeriodRow) where
  pub All-select_base : All P (p ∷ ps) → All P ((select_base now p ps).0 ∷ (select_base now p ps).1)
  unfolding select_base
  All-select_base h =
      let first : All P (
          (last_match (covers now) (p, ps) (p ∷ ps)).0
          ∷ (last_match (covers now) (p, ps) (p ∷ ps)).1) =
        All-last_match P (covers now) (p, ps) (p ∷ ps) h h in
      ground (
        arith,
        h,
        first,
        All-last_match P (in_grace now) (last_match (covers now) (p, ps) (p ∷ ps)) (p ∷ ps) first h,
      )
