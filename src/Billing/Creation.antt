-- ===== src/Billing/Creation.antt =====
-- Payments in services/billing/internal/postgres/store.go between their insertion and the provider's
-- verdict: `PrepareProviderCreate`, `ApplyProviderCreate`, `MarkProviderCreateAmbiguous`,
-- `MarkProviderCreateFailed`, `ClaimPaymentForReconcile` and `ReschedulePayment`.
use vpn_platform.Prelude.{
  ℕ, ◌+◌, Bool, true, false, not, ◌&&◌, ◌||◌, String, Option, none, some, ◌==◌, ltb, leb, is_some,
  if◌then◌else◌, find, select, exists, sort_by, head_option,
}
use vpn_platform.Prelude.Int.{ℤ}
use vpn_platform.Billing.Types.{
  state_conflict, internal, PaymentOperation, canceled, pending, verification_pending, failed,
  ProviderPayment,
}
use vpn_platform.Billing.Status.{order_open, payment_active, awaits_creation}
use vpn_platform.Billing.Schema.{OrderRow, PaymentRow}
use vpn_platform.Billing.Transaction.{
  Tx, ◌>>=◌, ◌>>◌, return, ensure, get, transact, maybe, branch, update_orders, update_payments,
  add_duration,
}
use vpn_platform.Billing.Payments.{with_payment, is_text, get_payment}

-- `UPDATE orders SET status='canceled' … WHERE id=$1 AND status IN ('created','payment_pending')`.
abbrev pub open_order : String → OrderRow → Bool
open_order id o = o.id == id && order_open o.status

abbrev pub failed_row : String → ℕ → PaymentRow → PaymentRow
failed_row code now p = record p {
  status = failed;
  confirmation_url = none;
  last_error_code = some code;
  reconcile_lease_until = none;
  updated_at = now;
}

unfoldable pub expire_creation : PaymentOperation → ℕ → Tx (PaymentOperation × Bool)
expire_creation p now = do
  update_payments "expire provider create" (with_payment p.payment.payment_id)
      (failed_row "create_window_expired" now)
  update_orders "cancel expired order" (open_order p.payment.order_id) canceled now
  payment ← get_payment (with_payment p.payment.payment_id)
  return (payment, false)

unfoldable pub prepare_provider_create : String → ℕ → ℕ → Tx (PaymentOperation × Bool)
prepare_provider_create payment_id observed_at now = transact (do
  payment ← get_payment (with_payment payment_id)
  branch (not (awaits_creation payment.payment.status) || is_some payment.provider_payment_id)
      (return (payment, false))
      (branch (ltb observed_at payment.provider_create_deadline) (return (payment, true))
        (expire_creation payment now)))

-- `status IN (…) AND (provider_payment_id IS NULL OR provider_payment_id=$2)`.
abbrev pub adopts : String → String → PaymentRow → Bool
adopts payment_id provider_payment_id p =
    p.id == payment_id
    && (payment_active p.status
        && (not (is_some p.provider_payment_id)
            || is_text p.provider_payment_id provider_payment_id))

abbrev pub adopted : ProviderPayment → ℕ → PaymentRow → PaymentRow
adopted provider now p = record p {
  provider_payment_id = some provider.provider_payment_id;
  status = if provider.status == "pending" then pending else verification_pending;
  confirmation_url = provider.confirmation_url;
  next_reconcile_at = now;
  reconcile_lease_until = none;
  last_error_code = none;
  updated_at = now;
}

-- `provider_payment_id text NULL UNIQUE`.
abbrev pub taken_by_other : String → String → PaymentRow → Bool
taken_by_other payment_id provider_payment_id p =
    not (p.id == payment_id) && is_text p.provider_payment_id provider_payment_id

unfoldable pub adopt_payment : String → ProviderPayment → ℕ → Tx (Unit {0})
adopt_payment payment_id provider now = do
  rows ← get (λ db. db.payments)
  ensure (exists (adopts payment_id provider.provider_payment_id) rows) state_conflict
  ensure (not (exists (taken_by_other payment_id provider.provider_payment_id) rows))
      (internal "apply provider create")
  update_payments "apply provider create" (adopts payment_id provider.provider_payment_id)
      (adopted provider now)

unfoldable pub apply_provider_create : String → ProviderPayment → ℕ → Tx PaymentOperation
apply_provider_create payment_id provider now = do
  adopt_payment payment_id provider now
  get_payment (with_payment payment_id)

abbrev pub awaiting : String → PaymentRow → Bool
awaiting id p = p.id == id && awaits_creation p.status

abbrev pub ambiguous_row : String → ℕ → ℤ → PaymentRow → PaymentRow
ambiguous_row code now delay p = record p {
  status = verification_pending;
  last_error_code = some code;
  next_reconcile_at = add_duration now delay;
  reconcile_lease_until = none;
  updated_at = now;
}

unfoldable pub mark_provider_create_ambiguous : String → String → ℤ → ℕ → Tx (Unit {0})
mark_provider_create_ambiguous payment_id code delay now =
    update_payments "mark provider create ambiguous" (awaiting payment_id)
      (ambiguous_row code now delay)

abbrev pub active_payment : String → PaymentRow → Bool
active_payment id p = p.id == id && payment_active p.status

unfoldable pub mark_provider_create_failed : String → String → ℕ → Tx (Unit {0})
mark_provider_create_failed payment_id code now = transact (do
  rows ← get (λ db. db.payments)
  update_payments "fail payment" (active_payment payment_id) (failed_row code now)
  maybe (find (active_payment payment_id) rows) (return tt)
      (λ p. update_orders "cancel failed order" (open_order p.order_id) canceled now))

abbrev pub lapsed : Option ℕ → ℕ → Bool
lapsed none now = true
lapsed (some t) now = ltb t now

abbrev pub reconcilable : ℕ → PaymentRow → Bool
reconcilable now p =
    payment_active p.status && (leb p.next_reconcile_at now && lapsed p.reconcile_lease_until now)

-- `ORDER BY next_reconcile_at`.
abbrev pub due_before : PaymentRow → PaymentRow → Bool
due_before a b = ltb a.next_reconcile_at b.next_reconcile_at

abbrev pub leased_payment : ℕ → ℕ → PaymentRow → PaymentRow
leased_payment now lease p = record p {
  reconcile_lease_until = some (now + lease);
  reconcile_attempts = p.reconcile_attempts + 1;
}

unfoldable pub lease_payment : ℕ → ℕ → PaymentRow → Tx (Option PaymentOperation)
lease_payment now lease p = do
  update_payments "claim payment reconciliation" (with_payment p.id) (leased_payment now lease)
  payment ← get_payment (with_payment p.id)
  return (some payment)

unfoldable pub claim_payment_for_reconcile : ℕ → ℕ → Tx (Option PaymentOperation)
claim_payment_for_reconcile now lease = do
  rows ← get (λ db. db.payments)
  maybe (head_option (sort_by due_before (select (reconcilable now) rows))) (return none)
      (lease_payment now lease)

-- `NULLIF($2,'')`.
abbrev pub null_if_empty : String → Option String
null_if_empty s = if s == "" then none else some s

abbrev pub rescheduled : String → ℕ → ℤ → PaymentRow → PaymentRow
rescheduled code now delay p = record p {
  last_error_code = null_if_empty code;
  next_reconcile_at = add_duration now delay;
  reconcile_lease_until = none;
  updated_at = now;
}

unfoldable pub reschedule_payment : String → String → ℤ → ℕ → Tx (Unit {0})
reschedule_payment payment_id code delay now =
    update_payments "reschedule payment" (active_payment payment_id) (rescheduled code now delay)
