-- ===== src/Billing/Retention.antt =====
-- services/billing/internal/postgres/retention.go: `RetentionDatasets`, the deletion of processed
-- webhooks, and what the run of internal/platform/retention/retention.go leaves of the database.
pub mod Kept
use vpn_platform.Prelude.{
  ℕ, zero, suc, Bool, true, false, not, ◌&&◌, ◌||◌, String, Option, none, some, List, [], ◌∷◌, ◌≡◌,
  refl, ◌==◌, ltb, eqb, if◌then◌else◌, select, exists, sort_by, length, Result, ok, err,
}
use vpn_platform.Prelude.Int.{ℤ, pos, ltb_ℤ}
use vpn_platform.Prelude.Text.{codes, ltb_codes}
use vpn_platform.Billing.Schema.{Database, WebhookRow, WebhookState}
use vpn_platform.Retention.{Dataset, Eligibility}

pub record HoldRow : Type 0 where
  pub scope : String
  pub active_until : Option ℕ

abbrev open_until : Option ℕ → ℕ → Bool
open_until none now = true
open_until (some t) now = ltb now t

-- `scope IN ('all_financial_records', 'webhook_inbox') AND (active_until IS NULL OR …)`.
abbrev pub active_hold : ℕ → HoldRow → Bool
active_hold now h =
    (h.scope == "all_financial_records" || h.scope == "webhook_inbox")
    && open_until h.active_until now

abbrev pub is_processed : WebhookState → Bool
is_processed WebhookState.processed = true
is_processed _ = false

abbrev before : Option ℕ → ℤ → Bool
before none cutoff = false
before (some t) cutoff = ltb_ℤ (pos t) cutoff

-- `state = 'processed' AND processed_at < $1`.
abbrev pub outdated : ℤ → WebhookRow → Bool
outdated cutoff r = is_processed r.state && before r.processed_at cutoff

abbrev instant : Option ℕ → ℕ
instant none = 0
instant (some t) = t

-- `ORDER BY processed_at, id`.
abbrev pub processed_first : WebhookRow → WebhookRow → Bool
processed_first a b =
    ltb (instant a.processed_at) (instant b.processed_at)
    || (eqb (instant a.processed_at) (instant b.processed_at)
        && ltb_codes (codes a.id) (codes b.id))

-- `LIMIT n`.
abbrev pub limit_rows : {A : Type 0} → ℕ → List A → List A
limit_rows zero xs = []
limit_rows (suc n) [] = []
limit_rows (suc n) (x ∷ xs) = x ∷ limit_rows n xs

module _ (holds : List HoldRow) (now : ℕ) where
  abbrev held : Bool
  held = exists (active_hold now) holds

  -- The rows that the CTE of the deletion gives.
  abbrev pub selected : ℤ → ℕ → List WebhookRow → List WebhookRow
  selected cutoff limit rows =
      limit_rows limit (sort_by processed_first (select (λ r. outdated cutoff r && not held) rows))

  -- `WHERE item.id = selected.id`.
  abbrev pub chosen : ℤ → ℕ → List WebhookRow → WebhookRow → Bool
  chosen cutoff limit rows r = exists (λ s. s.id == r.id) (selected cutoff limit rows)

  -- A hold turns the eligible rows into protected ones.
  unfoldable pub preview_webhooks : ℤ → Database → Result String Eligibility × Database
  preview_webhooks cutoff db =
      let n = pos (length (select (outdated cutoff) db.webhooks)) in
      (
        ok (record { eligible = if held then pos 0 else n; protected = if held then n else pos 0 }),
        db,
      )

  unfoldable pub delete_webhooks : ℤ → ℕ → Database → Result String ℤ × Database
  delete_webhooks cutoff limit db = (
    ok (pos (length (select (chosen cutoff limit db.webhooks) db.webhooks))),
    record db { webhooks = select (λ r. not (chosen cutoff limit db.webhooks r)) db.webhooks },
  )

  abbrev pub processed_webhooks : ℤ → Dataset Database
  processed_webhooks keep_for = record {
    name = "processed_webhooks";
    keep_for = keep_for;
    preview = some preview_webhooks;
    delete_batch = some delete_webhooks;
  }
