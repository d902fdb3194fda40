-- ===== src/Subscription/Entitlement/Bounds.antt =====
-- What every computed entitlement satisfies, whatever dates the rows hold.
use vpn_platform.Prelude.{
  ℕ, ◌<◌, ◌≡◌, ◌≢◌, String, true, some, List, [], ◌∷◌, arith, ltb, if◌then◌else◌, All,
}
use vpn_platform.Prelude.Tables.{All-mono, All-sort_by, select-passes}
use vpn_platform.Subscription.Types.{expired, revoked}
use vpn_platform.Subscription.Schema.{PeriodRow}
use vpn_platform.Subscription.Entitlement.{
  EntitlementState, status_at, select_base, extend_chain, entitlement_of, calculate_entitlement,
  is_valid, period_before,
}
use vpn_platform.Subscription.Entitlement.Chain.{lt-extend_chain, All-select_base}

-- The user has access or will have it, and the next change lies ahead.
pub record IsLive (now : ℕ) (e : EntitlementState) : Type 0 where
  pub not_expired : e.status ≢ expired
  pub not_revoked : e.status ≢ revoked
  pub change : ℕ
  pub scheduled : e.next ≡ some change
  pub ahead : now < change

-- The instant of the next change, while the grace has not ended.
next_change : ℕ → ℕ → ℕ → ℕ → ℕ
next_change now start end g = if ltb now start then start else if ltb now end then end else g

module _ (now start end g : ℕ) (h : now < g) where
  status_at-next :
      ((status_at now start end g).1 ≡ some (next_change now start end g))
      × (now < next_change now start end g)
  unfolding status_at next_change
  status_at-next = ground arith

  status_at-ne :
      ((status_at now start end g).0 ≢ expired) × ((status_at now start end g).0 ≢ revoked)
  unfolding status_at
  status_at-ne = ((λ e. ground arith), (λ e. ground arith))

pub is_valid-lt :
    (id : String) (now : ℕ) (p : PeriodRow) → is_valid id now p ≡ true → now < p.grace_ends_at
is_valid-lt id now p h = ground arith

module _ (now : ℕ) (p : PeriodRow) (ps : List PeriodRow) where
  abbrev base : PeriodRow × List PeriodRow
  base = select_base now p ps

  abbrev chain : ℕ × ℕ
  chain = extend_chain base.0.period_end base.0.grace_ends_at base.1

  entitlement_of_cons-IsLive :
      {e : EntitlementState}
      → All (λ q. now < q.grace_ends_at) (p ∷ ps)
      → entitlement_of now (p ∷ ps) ≡ some e
      → IsLive now e
  unfolding entitlement_of
  entitlement_of_cons-IsLive {e} h eq =
      let valid : All (λ q. now < q.grace_ends_at) (base.0 ∷ base.1) =
        All-select_base (λ q. now < q.grace_ends_at) now p ps h in
      let g : now < chain.1 =
        lt-extend_chain now base.0.period_end base.0.grace_ends_at base.1 valid.0 valid.1 in
      let ne = status_at-ne now base.0.period_start chain.0 chain.1 g in
      let next = status_at-next now base.0.period_start chain.0 chain.1 g in
      record {
        not_expired = λ x. ne.0 (ground arith);
        not_revoked = λ x. ne.1 (ground arith);
        change = next_change now base.0.period_start chain.0 chain.1;
        scheduled = ground arith;
        ahead = next.1;
      }

entitlement_of-IsLive :
    (now : ℕ) (ps : List PeriodRow) {e : EntitlementState}
    → All (λ q. now < q.grace_ends_at) ps
    → entitlement_of now ps ≡ some e
    → IsLive now e
unfolding entitlement_of
entitlement_of-IsLive now [] h eq = cc
entitlement_of-IsLive now (p ∷ ps) h eq = entitlement_of_cons-IsLive now p ps h eq

-- An entitlement that is found is never expired or revoked, and its next change of status lies
-- strictly ahead, so the worker always gets back to the subscription.
pub calculate_entitlement-IsLive :
    (periods : List PeriodRow) (id : String) (now : ℕ) {e : EntitlementState}
    → calculate_entitlement periods id now ≡ some e
    → IsLive now e
unfolding calculate_entitlement
calculate_entitlement-IsLive periods id now eq =
    entitlement_of-IsLive now _
      (All-sort_by _ period_before _
        (All-mono _ _ _ (is_valid-lt id now) (select-passes (is_valid id now) periods)))
      eq
