-- ===== src/Billing/Ledger.antt =====
-- What the tables of the billing service promise to each other, as a property of the database.
pub mod Rows
pub mod OrderWrites
pub mod PaymentWrites
pub mod Events
pub mod Quiet
pub mod Reads
pub mod Settlement
pub mod Operations
pub mod Life
pub mod History
use vpn_platform.Prelude.{
  ℕ, Bool, true, false, String, Option, none, some, List, ◌≡◌, ◌==◌, In, refl, ap, sym, ◌∙◌, ◌↔◌,
}
use vpn_platform.Billing.Types.{paid, succeeded}
use vpn_platform.Billing.Status.{order_open}
use vpn_platform.Billing.Schema.{OrderRow, PaymentRow, OutboxRow, Database, payment_succeeded}
use vpn_platform.Billing.Verified.{succeeded_topic}

-- The order of a payment asks for the same amount.
abbrev pub IsPriced : List OrderRow → PaymentRow → Type 0
IsPriced orders p =
    (o : OrderRow) × In o orders
    × (o.id ≡ p.order_id)
    × (o.amount_minor ≡ p.amount_minor)
    × (o.currency ≡ p.currency)

abbrev pub HasPaidOrder : List OrderRow → PaymentRow → Type 0
HasPaidOrder orders p = (o : OrderRow) × In o orders × (o.id ≡ p.order_id) × (o.status ≡ paid)

abbrev pub IsCovered : List PaymentRow → OrderRow → Type 0
IsCovered payments o =
    (p : PaymentRow) × In p payments × (p.order_id ≡ o.id) × (p.status ≡ succeeded)

abbrev pub IsAnnounced : List OutboxRow → PaymentRow → Type 0
IsAnnounced outbox p =
    (e : OutboxRow) × In e outbox × (e.topic ≡ succeeded_topic) × (e.aggregate_id ≡ p.id)

-- The event states the order, the user, the plan, the amount and the instant of a payment that
-- succeeded.
abbrev pub IsTrue : List OrderRow → List PaymentRow → OutboxRow → Type 0
IsTrue orders payments e =
    (p : PaymentRow) × (o : OrderRow) × (t : ℕ) × In p payments
    × In o orders
    × (p.id ≡ e.aggregate_id)
    × (o.id ≡ p.order_id)
    × (p.status ≡ succeeded)
    × (p.paid_at ≡ some t)
    × (e.payload.event_data
        ≡ payment_succeeded p.id o.id o.user_id o.plan_id p.amount_minor p.currency t)

-- The payment that a transaction is about to settle, if there is one.
abbrev pub held : Option String → String → Bool
held none id = false
held (some x) id = x == id

-- An order and a payment have ids of their own, an order has one payment at most, a payment has the
-- amount of its order, a user has one open order at most, a payment that succeeded has a paid order and
-- an event, a paid order has a payment that succeeded, and the events are true. The payment that is being settled may still wait for its order and its event.
pub record Sound (x : Option String) (orders : List OrderRow) (payments : List PaymentRow)
    (outbox : List OutboxRow) : Type 0 where
  pub unique : (p q : PaymentRow) → In p payments → In q payments → p.id ≡ q.id → p ≡ q
  pub single : (p q : PaymentRow) → In p payments → In q payments → p.order_id ≡ q.order_id → p ≡ q
  pub named : (o q : OrderRow) → In o orders → In q orders → o.id ≡ q.id → o ≡ q
  pub one_open :
      (o q : OrderRow)
      → In o orders
      → In q orders
      → o.user_id ≡ q.user_id
      → order_open o.status ≡ true
      → order_open q.status ≡ true
      → o ≡ q
  pub priced : (p : PaymentRow) → In p payments → IsPriced orders p
  pub collected :
      (p : PaymentRow)
      → In p payments
      → p.status ≡ succeeded
      → held x p.id ≡ false
      → HasPaidOrder orders p
  pub covered : (o : OrderRow) → In o orders → o.status ≡ paid → IsCovered payments o
  pub announced :
      (p : PaymentRow)
      → In p payments
      → p.status ≡ succeeded
      → held x p.id ≡ false
      → IsAnnounced outbox p
  pub truthful :
      (e : OutboxRow) → In e outbox → e.topic ≡ succeeded_topic → IsTrue orders payments e

abbrev pub Books : Option String → Database → Type 0
Books x db = Sound x db.orders db.payments db.outbox

-- A payment has succeeded exactly if its order is paid.
abbrev pub IsExact : Database → Type 0
IsExact db =
    (p : PaymentRow) (o : OrderRow)
    → In p db.payments
    → In o db.orders
    → o.id ≡ p.order_id
    → (p.status ≡ succeeded) ↔ (o.status ≡ paid)

pub Books-IsExact : (db : Database) → Books none db → IsExact db
Books-IsExact db i p o mp mo e = (
  λ s.
      let (q, mq, f, t) = i.collected p mp s refl in
      ap (λ (o : OrderRow). o.status) (i.named o q mo mq (e ∙ sym f)) ∙ t,
  λ t.
      let (q, mq, f, s) = i.covered o mo t in
      ap (λ (p : PaymentRow). p.status) (i.single p q mp mq (sym e ∙ sym f)) ∙ s,
)
