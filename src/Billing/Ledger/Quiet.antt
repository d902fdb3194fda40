-- ===== src/Billing/Ledger/Quiet.antt =====
-- The operations of the billing store that settle no payment keep the books.
use vpn_platform.Prelude.{ℕ, String, Bool, Option, List, ◌≡◌, ◌≢◌, refl, inl, arith}
use vpn_platform.Prelude.Int.{ℤ}
use vpn_platform.Billing.Types.{
  OrderStatus, paid, payment_pending, canceled, succeeded, ProviderPayment,
}
use vpn_platform.Billing.Schema.{OrderRow, PaymentRow, WebhookRow, IdempotencyRow}
use vpn_platform.Billing.Transaction.{
  bind, ◌>>=◌, ◌>>◌, get, put, write_orders, write_payments, write_webhooks, write_idempotency_keys,
  update_orders, update_payments,
}
use vpn_platform.Billing.Transaction.Keeps.{Keeps, keeps_rules}
use vpn_platform.Store.Keeps.{ensure_kept, put-Keeps}
use vpn_platform.Billing.Creation.{failed_row, adopted, ambiguous_row, leased_payment, rescheduled}
use vpn_platform.Billing.Ledger.{Books}
use vpn_platform.Billing.Ledger.OrderWrites.{update_orders-Sound}
use vpn_platform.Billing.Ledger.PaymentWrites.{identity_of, update_payments-Sound}

pub update_orders-Books :
    {x : Option String} (what : String) (p : OrderRow → Bool) (s : OrderStatus) (now : ℕ)
    → s ≢ paid
    → Keeps (Books x) (update_orders what p s now)
unfolding update_orders ◌>>=◌ ◌>>◌ bind get put write_orders
update_orders-Books {x} what p s now unpaid = record {
  at = λ db i.
      ensure_kept (Books x) _ _ _ db i
        (λ e. update_orders-Sound i p s now e (λ o m h k. absurd (unpaid k)));
}

-- An update of payments that changes no success.
pub record IsQuiet (f : PaymentRow → PaymentRow) : Type 0 where
  pub identity : (r : PaymentRow) → identity_of (f r) ≡ identity_of r
  pub dated : (r : PaymentRow) → (f r).paid_at ≡ r.paid_at
  pub fresh : (r : PaymentRow) → (f r).status ≡ succeeded → r.status ≡ succeeded

pub update_payments-Books :
    {x : Option String} (what : String) (p : PaymentRow → Bool) {f : PaymentRow → PaymentRow}
    → IsQuiet f
    → Keeps (Books x) (update_payments what p f)
unfolding update_payments ◌>>=◌ ◌>>◌ bind get put write_payments
update_payments-Books {x} what p {f} q = record {
  at = λ db i. ensure_kept (Books x) _ _ _ db i (λ e.
      update_payments-Sound i p f q.identity e (λ r m h k. q.dated r)
        (λ r m h k. inl (q.fresh r k)));
}

pub failed_row-IsQuiet : (code : String) (now : ℕ) → IsQuiet (failed_row code now)
failed_row-IsQuiet code now = record { identity = λ r. refl; dated = λ r. refl; fresh = λ r h. cc }

pub adopted-IsQuiet : (p : ProviderPayment) (now : ℕ) → IsQuiet (adopted p now)
adopted-IsQuiet p now = record {
  identity = λ r. refl;
  dated = λ r. refl;
  fresh = λ r h. ground arith;
}

pub ambiguous_row-IsQuiet :
    (code : String) (now : ℕ) (delay : ℤ) → IsQuiet (ambiguous_row code now delay)
ambiguous_row-IsQuiet code now delay = record {
  identity = λ r. refl;
  dated = λ r. refl;
  fresh = λ r h. cc;
}

pub leased_payment-IsQuiet : (now lease : ℕ) → IsQuiet (leased_payment now lease)
leased_payment-IsQuiet now lease = record {
  identity = λ r. refl;
  dated = λ r. refl;
  fresh = λ r h. h;
}

pub rescheduled-IsQuiet :
    (code : String) (now : ℕ) (delay : ℤ) → IsQuiet (rescheduled code now delay)
rescheduled-IsQuiet code now delay = record {
  identity = λ r. refl;
  dated = λ r. refl;
  fresh = λ r h. h;
}

pub canceled-ne-paid : canceled ≢ paid
canceled-ne-paid e = cc

pub payment_pending-ne-paid : payment_pending ≢ paid
payment_pending-ne-paid e = cc

module _ {x : Option String} where
  pub write_webhooks-Books :
      (f : List WebhookRow → List WebhookRow) → Keeps (Books x) (write_webhooks f)
  unfolding write_webhooks
  write_webhooks-Books f = put-Keeps _ (λ db i. i)

  pub write_idempotency_keys-Books :
      (f : List IdempotencyRow → List IdempotencyRow) → Keeps (Books x) (write_idempotency_keys f)
  unfolding write_idempotency_keys
  write_idempotency_keys-Books f = put-Keeps _ (λ db i. i)

pub ruleset row_rules = (
  keeps_rules, update_orders-Books, update_payments-Books, failed_row-IsQuiet, adopted-IsQuiet,
  ambiguous_row-IsQuiet, leased_payment-IsQuiet, rescheduled-IsQuiet, canceled-ne-paid,
  payment_pending-ne-paid, write_webhooks-Books, write_idempotency_keys-Books,
)
