-- ===== src/Subscription/Reads.antt =====
-- The reads of services/subscription/internal/postgres/store.go: `GetSubscription` and `GetPlacement`.
use vpn_platform.Prelude.{ℕ, String, Bool, ◌&&◌, leb, ltb, ◌==◌, find, select, sort_by, head_option}
use vpn_platform.Subscription.Types.{not_found, Subscription, Placement}
use vpn_platform.Subscription.Schema.{Runtime, PeriodRow}
use vpn_platform.Subscription.Transaction.{Tx, ◌>>=◌, return, get, rows_or}
use vpn_platform.Subscription.Entitlement.{period_before, is_paid}
use vpn_platform.Subscription.Payment.{of_user}
use vpn_platform.Subscription.Plan.{subscription_of, is_running}

-- The lateral join of `GetPlacement`: the first paid period that runs or is in grace.
abbrev pub serves : String → ℕ → PeriodRow → Bool
serves id now p =
    p.subscription_id == id
    && (is_paid p.status && (leb p.period_start now && ltb now p.grace_ends_at))

module _ ⦃rt : Runtime⦄ where
  -- `GetSubscription`.
  unfoldable pub get_subscription : String → Tx Subscription
  get_subscription user_id = do
    rows ← get (λ db. db.subscriptions)
    r ← rows_or not_found (find (of_user (rt.uuid_text user_id)) rows)
    return (subscription_of r)

  unfoldable pub get_placement : String → ℕ → Tx Placement
  get_placement subscription_id now = do
    db ← get (λ db. db)
    s ←
        rows_or not_found
          (find (λ r. r.id == rt.uuid_text subscription_id && is_running r.status) db.subscriptions)
    p ←
        rows_or not_found
          (head_option (sort_by period_before (select (serves s.id now) db.periods)))
    return (record {
      subscription_id = s.id;
      period_id = p.id;
      region = p.region;
      primary_nodes = p.primary_nodes;
      failover_nodes = p.failover_nodes;
      valid_until = p.grace_ends_at;
    })
