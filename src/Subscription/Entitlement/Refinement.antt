-- ===== src/Subscription/Entitlement/Refinement.antt =====
-- What `calculateEntitlement` computes, without its loops, its order and its chain.
use vpn_platform.Prelude.{
  ℕ, ◌≤◌, ◌<◌, ◌≡◌, refl, ◌∙◌, inl, inr, String, Bool, true, false, not, ◌&&◌, Option, none, some,
  List, [], ◌∷◌, arith, ltb, if◌then◌else◌, All, exists, select, sort_by, Bool-cases, ltb→lt,
  lt→ltb,
}
use vpn_platform.Prelude.Tables.{
  All-mono, All-select, All-sort_by, select-passes, exists-select, exists-sort_by, exists-false,
  exists-eq-false, IsOrdered, sort_by-IsOrdered,
}
use vpn_platform.Subscription.Types.{Status, pending, active, grace}
use vpn_platform.Subscription.Schema.{PeriodRow}
use vpn_platform.Subscription.Entitlement.{
  EntitlementState, status_at, select_base, extend_chain, entitlement_of, calculate_entitlement,
  is_valid, period_before, covers, in_grace,
}
use vpn_platform.Subscription.Entitlement.Chain.{
  lt-extend_chain, le-extend_chain, extend_chain_ended, All-select_base, last_match-passes,
  last_match_miss,
}
use vpn_platform.Subscription.Entitlement.Bounds.{is_valid-lt}

abbrev pub started : ℕ → PeriodRow → Bool
started now p = not (ltb now p.period_start)

abbrev pub status_of : Option EntitlementState → Option Status
status_of none = none
status_of (some e) = some e.status

-- The specification: active while a valid period covers the instant; else grace if a valid period has
-- started; else pending if there is a valid period. It reads the rows in no order.
pub entitled_status : List PeriodRow → String → ℕ → Option Status
entitled_status periods id now =
    if exists (λ p. is_valid id now p && covers now p) periods
    then some active
    else if exists (λ p. is_valid id now p && started now p) periods
    then some grace
    else if exists (is_valid id now) periods
    then some pending
    else none

-- The dates of a row as the table's CHECK holds them.
abbrev pub DatesOrdered : PeriodRow → Type 0
DatesOrdered p = (p.period_start < p.period_end) × (p.period_end ≤ p.grace_ends_at)

abbrev StartsBefore : PeriodRow → PeriodRow → Type 0
StartsBefore p q = p.period_start ≤ q.period_start

-- What the proofs need of each row that the query returns.
abbrev Uncovered : ℕ → PeriodRow → Type 0
Uncovered now q = (now < q.grace_ends_at) × (q.period_start < q.period_end) × (covers now q ≡ false)

module _ (now : ℕ) (p : PeriodRow) (ps : List PeriodRow) where
  abbrev base : PeriodRow × List PeriodRow
  base = select_base now p ps

  abbrev chain : ℕ × ℕ
  chain = extend_chain base.0.period_end base.0.grace_ends_at base.1

  base_covers : exists (covers now) (p ∷ ps) ≡ true → covers now base.0 ≡ true
  unfolding select_base
  base_covers h = ground (arith, last_match-passes (covers now) (p, ps) (p ∷ ps) (inr h))

  active_of_covered :
      exists (covers now) (p ∷ ps) ≡ true → status_of (entitlement_of now (p ∷ ps)) ≡ some active
  unfolding entitlement_of status_at
  active_of_covered h =
      ground (arith, base_covers h, le-extend_chain base.0.period_end base.0.grace_ends_at base.1)

  base_pending : exists (covers now) (p ∷ ps) ≡ false → now < p.period_start → base ≡ (p, ps)
  unfolding select_base
  base_pending h k = rw (last_match_miss (covers now) (p, ps) (p ∷ ps) h) (rw (lt→ltb _ _ k))

  pending_of_ahead :
      exists (covers now) (p ∷ ps) ≡ false
      → now < p.period_start
      → status_of (entitlement_of now (p ∷ ps)) ≡ some pending
  unfolding entitlement_of status_at
  pending_of_ahead h k = ground (arith, base_pending h k)

  base_in_grace :
      exists (covers now) (p ∷ ps) ≡ false
      → p.period_start ≤ now
      → now < p.grace_ends_at
      → in_grace now base.0 ≡ true
  unfolding select_base
  base_in_grace h k g = ground (
    arith,
    last_match_miss (covers now) (p, ps) (p ∷ ps) h,
    exists-false (covers now) (p ∷ ps) h,
    last_match-passes (in_grace now) (p, ps) (p ∷ ps),
  )

  grace_of_started :
      exists (covers now) (p ∷ ps) ≡ false
      → p.period_start ≤ now
      → All (Uncovered now) (p ∷ ps)
      → status_of (entitlement_of now (p ∷ ps)) ≡ some grace
  unfolding entitlement_of status_at
  grace_of_started h k valid =
      let b : All (Uncovered now) (base.0 ∷ base.1) =
        All-select_base (Uncovered now) now p ps valid in
      let g = base_in_grace h k valid.0.0 in
      let e = base.0.period_end in
      ground (
        arith,
        b.0,
        extend_chain_ended now base.0.period_end base.0.grace_ends_at base.1 (ground arith)
            (All-mono (Uncovered now) _ base.1 (λ q u. u.2) b.1),
        lt-extend_chain now base.0.period_end base.0.grace_ends_at base.1 b.0.0
            (All-mono (Uncovered now) _ base.1 (λ q u. u.0) b.1),
      )

-- Before its first start, an ordered list has no period that has started.
none_started :
    (now : ℕ) (p : PeriodRow) (ps : List PeriodRow)
    → now < p.period_start
    → All (StartsBefore p) ps
    → exists (started now) (p ∷ ps) ≡ false
none_started now p ps h k =
    exists-eq-false (started now) (p ∷ ps)
      (ground arith, All-mono (StartsBefore p) _ ps (λ q u. ground arith) k)

both :
    (P Q : PeriodRow → Type 0) (ps : List PeriodRow) → All P ps → All Q ps → All (λ p. P p × Q p) ps
both P Q [] h k = tt
both P Q (p ∷ ps) h k = ((h.0, k.0), both P Q ps h.1 k.1)

-- The status of an ordered list of valid rows with ordered dates.
entitlement_of-status :
    (now : ℕ) (ps : List PeriodRow)
    → IsOrdered StartsBefore ps
    → All (λ q. (now < q.grace_ends_at) × DatesOrdered q) ps
    → status_of (entitlement_of now ps) ≡ (
        if exists (covers now) ps
        then some active
        else if exists (started now) ps
        then some grace
        else if exists (λ q. true) ps
        then some pending
        else none)
unfolding entitlement_of exists
entitlement_of-status now [] o v = refl
entitlement_of-status now (p ∷ ps) o v = elim (Bool-cases (exists (covers now) (p ∷ ps))) [
  | inl c ↦ unfold exists in ground (arith, active_of_covered now p ps c)
  | inr c ↦ elim (Bool-cases (ltb now p.period_start)) [
    | inl a ↦ ground (
      arith,
      pending_of_ahead now p ps c (ltb→lt _ _ a),
      none_started now p ps (ltb→lt _ _ a) o.0,
    )
    | inr s ↦ ground (
      arith,
      grace_of_started now p ps c (ground arith) (
          All-mono _ (Uncovered now) (p ∷ ps) (λ q u. (u.0.0, u.0.1.0, u.1))
            (both _ _ (p ∷ ps) v (exists-false (covers now) (p ∷ ps) c))),
    )
  ]
]

all_true : (t : PeriodRow → Bool) (ps : List PeriodRow) → exists (λ p. t p && true) ps ≡ exists t ps
unfolding exists
all_true t [] = refl
all_true t (p ∷ ps) = ground (arith, all_true t ps)

-- The status that `calculateEntitlement` returns, over rows that satisfy the table's CHECK on dates,
-- is the one of the specification, and it finds no entitlement exactly where there is none.
pub calculate_entitlement-entitled_status :
    (periods : List PeriodRow) (id : String) (now : ℕ)
    → All DatesOrdered periods
    → status_of (calculate_entitlement periods id now) ≡ entitled_status periods id now
unfolding calculate_entitlement entitled_status
calculate_entitlement-entitled_status periods id now d =
    let valid = is_valid id now in
    let rows = sort_by period_before (select valid periods) in
    let ok' : All (λ q. (now < q.grace_ends_at) × DatesOrdered q) rows =
      All-sort_by _ period_before _ (
        both _ _ _ (All-mono _ _ _ (is_valid-lt id now) (select-passes valid periods))
          (All-select valid _ periods d)) in
    let ordered : IsOrdered StartsBefore rows =
      sort_by-IsOrdered StartsBefore period_before (λ a b c h k. omega arith)
        (λ a b h. ground arith) (λ a b h. ground arith) _ in
    let same = λ (t : PeriodRow → Bool).
      exists-sort_by t period_before (select valid periods) ∙ exists-select t valid periods in
    ground (
      arith,
      entitlement_of-status now rows ordered ok',
      same (covers now),
      same (started now),
      same (λ q. true),
      all_true valid periods,
    )
