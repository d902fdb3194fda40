-- ===== src/Billing/Ledger/Rows.antt =====
-- What the triggers keep of one row.
use vpn_platform.Prelude.{Bool, true, not, ◌&&◌, List, ◌≡◌, refl, arith, In}
use vpn_platform.Prelude.Tables.{exists-false, All-In}
use vpn_platform.Billing.Types.{
  OrderStatus, PaymentStatus, created, payment_pending, paid, canceled, verification_pending,
  pending, succeeded, failed,
}
use vpn_platform.Billing.Status.{order_transition, payment_transition, order_open}
use vpn_platform.Billing.Transaction.{all_where}

pub all_where-In :
    {A : Type 0} (p q : A → Bool) (rows : List A) (a : A)
    → all_where p q rows ≡ true
    → In a rows
    → p a ≡ true
    → q a ≡ true
all_where-In p q rows a h m e =
    let n = All-In _ rows a (exists-false (λ b. p b && not (q b)) rows (ground arith)) m in
    ground arith

paid_from : (s : OrderStatus) → order_transition paid s ≡ true → s ≡ paid
paid_from created h = cc
paid_from payment_pending h = cc
paid_from paid h = refl
paid_from canceled h = cc

pub stays_paid : (r s : OrderStatus) → order_transition r s ≡ true → r ≡ paid → s ≡ paid
stays_paid r s h e = paid_from s (rw e at h)

pub opened_before :
    (r s : OrderStatus) → order_transition r s ≡ true → order_open s ≡ true → order_open r ≡ true
opened_before created s h k = refl
opened_before payment_pending s h k = refl
opened_before paid created h k = cc
opened_before paid payment_pending h k = cc
opened_before paid paid h k = cc
opened_before paid canceled h k = cc
opened_before canceled created h k = cc
opened_before canceled payment_pending h k = cc
opened_before canceled paid h k = cc
opened_before canceled canceled h k = cc

succeeded_from : (s : PaymentStatus) → payment_transition succeeded s ≡ true → s ≡ succeeded
succeeded_from created h = cc
succeeded_from verification_pending h = cc
succeeded_from pending h = cc
succeeded_from succeeded h = refl
succeeded_from canceled h = cc
succeeded_from failed h = cc

pub stays_succeeded :
    (r s : PaymentStatus) → payment_transition r s ≡ true → r ≡ succeeded → s ≡ succeeded
stays_succeeded r s h e = succeeded_from s (rw e at h)
