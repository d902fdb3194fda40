-- ===== src/Billing/Retention/Kept.antt =====
-- What the deletion of processed webhooks leaves alone.
use vpn_platform.Prelude.{
  ℕ, zero, suc, Bool, true, false, not, ◌&&◌, String, List, [], ◌∷◌, ◌≡◌, refl, sym, ◌∙◌, ap, arith,
  select, exists, All, In, inl, inr, Bool-cases, ==_iff, ◌==◌,
}
use vpn_platform.Prelude.Tables.{exists-In, All-In, All-sort_by}
use vpn_platform.Prelude.Tables.Members.{All-select_In, In-select}
use vpn_platform.Prelude.Int.{ℤ}
use vpn_platform.Billing.Schema.{Database, WebhookRow}
use vpn_platform.Billing.Retention.{
  HoldRow, active_hold, is_processed, outdated, limit_rows, processed_first, selected, chosen,
  preview_webhooks, delete_webhooks, processed_webhooks,
}
use vpn_platform.Retention.{Settings, run, preview_of}
use vpn_platform.Retention.Keeps.{Preserves, run_kept}

-- A deletion that spares the rows of `p` leaves what `p` selects.
select-spared :
    {A : Type 0} (p d : A → Bool) (rows : List A)
    → ((a : A) → In a rows → p a ≡ true → d a ≡ false)
    → select p (select (λ a. not (d a)) rows) ≡ select p rows
unfolding select
select-spared p d [] h = refl
select-spared p d (a ∷ rows) h =
    ground (arith, h a (inl refl), select-spared p d rows (λ b m. h b (inr m)))

select-none :
    {A : Type 0} (d : A → Bool) (rows : List A)
    → ((a : A) → d a ≡ false)
    → select (λ a. not (d a)) rows ≡ rows
unfolding select
select-none d [] h = refl
select-none d (a ∷ rows) h = rw (h a) (ap (λ as'. a ∷ as') (select-none d rows h))

All-limit_rows :
    {A : Type 0} (P : A → Type 0) (n : ℕ) (xs : List A) → All P xs → All P (limit_rows n xs)
All-limit_rows P zero xs h = tt
All-limit_rows P (suc n) [] h = tt
All-limit_rows P (suc n) (x ∷ xs) h = (h.0, All-limit_rows P n xs h.1)

abbrev pub is_waiting : WebhookRow → Bool
is_waiting r = not (is_processed r.state)

-- Everything but the processed webhooks is as it was, and these too under a legal hold.
pub record SameBut (held : Bool) (before after : Database) : Type 0 where
  pub orders : after.orders ≡ before.orders
  pub payments : after.payments ≡ before.payments
  pub idempotency_keys : after.idempotency_keys ≡ before.idempotency_keys
  pub outbox : after.outbox ≡ before.outbox
  pub waiting : select is_waiting after.webhooks ≡ select is_waiting before.webhooks
  pub protected : held ≡ true → after.webhooks ≡ before.webhooks

-- The primary key of the webhooks.
abbrev pub HasKeys : Database → Type 0
HasKeys db = (r s : WebhookRow) → In r db.webhooks → In s db.webhooks → r.id ≡ s.id → r ≡ s

module _ (holds : List HoldRow) (clock : ℕ) where
  abbrev on_hold : Bool
  on_hold = exists (active_hold clock) holds

  -- Why a row goes: one of its id is old, and nothing is held.
  record Reason (cutoff : ℤ) (rows : List WebhookRow) (r : WebhookRow) : Type 0 where
    row : WebhookRow
    stored : In row rows
    named : row.id ≡ r.id
    old : outdated cutoff row ≡ true
    free : on_hold ≡ false

  chosen-Reason :
      (cutoff : ℤ) (limit : ℕ) (rows : List WebhookRow) (r : WebhookRow)
      → chosen holds clock cutoff limit rows r ≡ true
      → Reason cutoff rows r
  chosen-Reason cutoff limit rows r h =
      let (s, m, k) = exists-In (λ s. s.id == r.id) (selected holds clock cutoff limit rows) h in
      let (stored, passed) =
        All-In _ (selected holds clock cutoff limit rows) s
          (All-limit_rows _ limit _ (
            All-sort_by _ processed_first _
              (All-select_In (λ r. outdated cutoff r && not on_hold) rows)))
          m in
      record {
        row = s;
        stored = stored;
        named = (==_iff s.id r.id).0 k;
        old = ground arith;
        free = ground arith;
      }

  spared :
      (cutoff : ℤ) (limit : ℕ) (db : Database) (r : WebhookRow)
      → HasKeys db
      → In r db.webhooks
      → is_waiting r ≡ true
      → chosen holds clock cutoff limit db.webhooks r ≡ false
  spared cutoff limit db r keys m w =
      elim (Bool-cases (chosen holds clock cutoff limit db.webhooks r)) [
        | inl h ↦
            let reason = chosen-Reason cutoff limit db.webhooks r h in
            let same = keys reason.row r reason.stored m reason.named in
            let old : outdated cutoff r ≡ true = ap (outdated cutoff) (sym same) ∙ reason.old in
            absurd (ground (arith, old, w))
        | inr h ↦ h
      ]

  untouched :
      (cutoff : ℤ) (limit : ℕ) (rows : List WebhookRow) (r : WebhookRow)
      → on_hold ≡ true
      → chosen holds clock cutoff limit rows r ≡ false
  untouched cutoff limit rows r k = elim (Bool-cases (chosen holds clock cutoff limit rows r)) [
    | inl h ↦ absurd (ground (arith, (chosen-Reason cutoff limit rows r h).free, k))
    | inr h ↦ h
  ]

  processed_webhooks-Preserves :
      (keep_for : ℤ) (db : Database)
      → Preserves
          (λ after. SameBut on_hold db after × HasKeys after)
          (processed_webhooks holds clock keep_for)
  unfolding preview_of preview_webhooks delete_webhooks
  processed_webhooks-Preserves keep_for db = record {
    previewed = λ cutoff w i. i;
    deleted = λ cutoff limit w i. (
      record {
        orders = i.0.orders;
        payments = i.0.payments;
        idempotency_keys = i.0.idempotency_keys;
        outbox = i.0.outbox;
        waiting =
            select-spared is_waiting _ w.webhooks (λ r m h. spared cutoff limit w r i.1 m h)
            ∙ i.0.waiting;
        protected = λ h.
            select-none _ w.webhooks (λ r. untouched cutoff limit w.webhooks r h) ∙ i.0.protected h;
      },
      λ r s mr ms e. i.1 r s (In-select _ w.webhooks r mr) (In-select _ w.webhooks s ms) e,
    );
  }

  -- A retention run over the billing database, in which the ids of webhooks are unique, whatever its
  -- settings and however it ends, leaves orders, payments, idempotency keys and the outbox as they were,
  -- and of the webhooks all that are not processed; under an active legal hold it leaves all webhooks.
  pub run-SameBut :
      (owner : String) (now : ℕ) (s : Settings) (keep_for : ℤ) (db : Database)
      → HasKeys db
      → SameBut
          (exists (active_hold clock) holds)
          db
          (run owner now s (processed_webhooks holds clock keep_for ∷ []) db).1
  run-SameBut owner now s keep_for db keys =
      (run_kept (λ after. SameBut on_hold db after × HasKeys after) owner now s
        (processed_webhooks holds clock keep_for ∷ []) db
        (processed_webhooks-Preserves keep_for db, tt)
        (
          record {
            orders = refl;
            payments = refl;
            idempotency_keys = refl;
            outbox = refl;
            waiting = refl;
            protected = λ h. refl;
          },
          keys,
        )).0
