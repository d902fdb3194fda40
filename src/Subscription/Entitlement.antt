-- ===== src/Subscription/Entitlement.antt =====
-- `statusAt` and `calculateEntitlement` of services/subscription/internal/postgres/store.go.
mod Chain
pub mod Bounds
pub mod Refinement
use vpn_platform.Prelude.{
  ℕ, zero, suc, String, Bool, true, false, not, ◌&&◌, ◌||◌, Option, none, some, List, [], ◌∷◌, ltb,
  eqb, ◌==◌, if◌then◌else◌, select, sort_by, arith,
}
use vpn_platform.Prelude.Text.{codes, ltb_codes}
use vpn_platform.Subscription.Types.{Status, pending, active, grace, expired}
use vpn_platform.Subscription.Schema.{PeriodRow, PeriodStatus, paid, refunded}

-- `now.Before(start)`, and so on: the status at an instant and the next change of it.
unfoldable pub status_at : ℕ → ℕ → ℕ → ℕ → Status × Option ℕ
status_at now start end grace_end =
    if ltb now start
    then (pending, some start)
    else if ltb now end
    then (active, some end)
    else if ltb now grace_end
    then (grace, some grace_end)
    else (expired, none)

pub record EntitlementState : Type 0 where
  pub status : Status
  pub start : ℕ
  pub end : ℕ
  pub grace_end : ℕ
  pub next : Option ℕ
  pub period : PeriodRow

-- `!now.Before(p.Start) && now.Before(p.End)`.
abbrev pub covers : ℕ → PeriodRow → Bool
covers now p = not (ltb now p.period_start) && ltb now p.period_end

-- `!now.Before(p.End) && now.Before(p.Grace)`.
abbrev pub in_grace : ℕ → PeriodRow → Bool
in_grace now p = not (ltb now p.period_end) && ltb now p.grace_ends_at

-- `for i := range periods { if test { base = i } }`: the last period that passes, with those behind
-- it; `base` if none does.
unfoldable pub last_match :
    (PeriodRow → Bool) → PeriodRow × List PeriodRow → List PeriodRow → PeriodRow × List PeriodRow
last_match test base [] = base
last_match test base (p ∷ ps) = last_match test (if test p then (p, ps) else base) ps

-- The selected period, with the periods behind it, of the non-empty list `p ∷ ps`.
unfoldable pub select_base : ℕ → PeriodRow → List PeriodRow → PeriodRow × List PeriodRow
select_base now p ps =
    let base = last_match (covers now) (p, ps) (p ∷ ps) in
    if ltb now base.0.period_start
    then (p, ps)
    else if not (ltb now base.0.period_end)
    then last_match (in_grace now) base (p ∷ ps)
    else base

-- The loop over the periods behind the selected one: they extend the chain while they touch it.
unfoldable pub extend_chain : ℕ → ℕ → List PeriodRow → ℕ × ℕ
extend_chain end grace_end [] = (end, grace_end)
extend_chain end grace_end (p ∷ ps) =
    let rest =
      extend_chain (if ltb end p.period_end then p.period_end else end)
        (if ltb end p.period_end then p.grace_ends_at else grace_end) ps in
    if ltb end p.period_start then (end, grace_end) else rest

-- The Go code behind the query, on the rows in their order.
unfoldable pub entitlement_of : ℕ → List PeriodRow → Option EntitlementState
entitlement_of now [] = none
entitlement_of now (p ∷ ps) =
    let base = select_base now p ps in
    let chain = extend_chain base.0.period_end base.0.grace_ends_at base.1 in
    let status = status_at now base.0.period_start chain.0 chain.1 in
    some (record {
      status = status.0;
      start = base.0.period_start;
      end = chain.0;
      grace_end = chain.1;
      next = status.1;
      period = base.0;
    })

abbrev pub is_paid : PeriodStatus → Bool
is_paid paid = true
is_paid refunded = false

-- `WHERE subscription_id = $1 AND status = 'paid' AND grace_ends_at > $2`.
abbrev pub is_valid : String → ℕ → PeriodRow → Bool
is_valid subscription_id now p =
    p.subscription_id == subscription_id && (is_paid p.status && ltb now p.grace_ends_at)

-- `ORDER BY period_start, id`.
abbrev pub period_before : PeriodRow → PeriodRow → Bool
period_before p q =
    ltb p.period_start q.period_start
    || (eqb p.period_start q.period_start && ltb_codes (codes p.id) (codes q.id))

-- `calculateEntitlement`; the subscription's id is as a `uuid` column holds it.
unfoldable pub calculate_entitlement : List PeriodRow → String → ℕ → Option EntitlementState
calculate_entitlement periods subscription_id now =
    entitlement_of now (sort_by period_before (select (is_valid subscription_id now) periods))
