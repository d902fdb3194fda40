-- ===== src/Subscription/Validation/Bounds.antt =====
-- What an order that passed the checks gives the store to compute with.
use vpn_platform.Prelude.{
  ℕ, ◌+◌, ◌*◌, ◌≤◌, ◌≡◌, refl, Bool, true, ok, ensure, false, arith, ensure->>=-eq-ok,
}
use vpn_platform.Prelude.Int.{ℤ, pos, negsuc}
use vpn_platform.Subscription.Types.{Error, PaymentSucceeded, Order, Subscription}
use vpn_platform.Subscription.Validation.{validate_order, snapshot_bounded, order_matches, between}
use vpn_platform.Subscription.Plan.{Plan, plan_of, days, hours}

-- The dates of a plan: one after the other, without overflow.
pub record HasDates (order : Order) (p : Plan) : Type 0 where
  pub day_count : ℕ
  pub hour_count : ℕ
  pub days_exact : order.plan_snapshot.duration_days ≡ pos day_count
  pub hours_exact : order.plan_snapshot.grace_period_hours ≡ pos hour_count
  pub days_bounded : (1 ≤ day_count) × (day_count ≤ 3650)
  pub hours_bounded : hour_count ≤ 720
  pub end_exact : p.period_end ≡ p.period_start + day_count * 86400000000000
  pub grace_exact : p.grace_end ≡ p.period_end + hour_count * 3600000000000

between_pos :
    (lo hi : ℕ) (n : ℤ) → between lo hi n ≡ true → (k : ℕ) × (n ≡ pos k) × (lo ≤ k) × (k ≤ hi)
between_pos lo hi (pos n) h = (n, refl, ground arith, ground arith)
between_pos lo hi (negsuc n) h = cc

snapshot_days :
    (order : Order)
    → snapshot_bounded order ≡ true
    → (k : ℕ) × (order.plan_snapshot.duration_days ≡ pos k) × (1 ≤ k) × (k ≤ 3650)
unfolding snapshot_bounded
snapshot_days order h = between_pos 1 3650 order.plan_snapshot.duration_days (ground arith)

snapshot_hours :
    (order : Order)
    → snapshot_bounded order ≡ true
    → (k : ℕ) × (order.plan_snapshot.grace_period_hours ≡ pos k) × (0 ≤ k) × (k ≤ 720)
unfolding snapshot_bounded
snapshot_hours order h = between_pos 0 720 order.plan_snapshot.grace_period_hours (ground arith)

days_exact : (k : ℕ) → k ≤ 3650 → days (pos k) ≡ pos (k * 86400000000000)
days_exact k h = ground arith

hours_exact : (k : ℕ) → k ≤ 720 → hours (pos k) ≡ pos (k * 3600000000000)
hours_exact k h = ground arith

only : (b : Bool) (e : Error) → ensure b e ≡ ok tt → b ≡ true
only true e h = refl
only false e h = cc

-- A plan made of an order that passed the checks has a positive period and then its grace, both of
-- the exact length that the order states: at least one day and at most 3650, and at most 720 hours.
pub plan_of-HasDates :
    (payment : PaymentSucceeded) (order : Order) (s : Subscription) (created : Bool) (now : ℕ)
    → validate_order payment order ≡ ok tt
    → HasDates order (plan_of s created payment order now)
unfolding validate_order plan_of
plan_of-HasDates payment order s created now h =
    let checks = ensure->>=-eq-ok (order_matches payment order) _ _ h in
    let bounded = only _ _ checks.1 in
    let (d, ed, lo, hi) = snapshot_days order bounded in
    let (g, eg, _, top) = snapshot_hours order bounded in
    record {
      day_count = d;
      hour_count = g;
      days_exact = ed;
      hours_exact = eg;
      days_bounded = (lo, hi);
      hours_bounded = top;
      end_exact = ground (arith, ed, days_exact d hi);
      grace_exact = ground (arith, eg, hours_exact g top);
    }
