-- ===== src/Billing/Ledger/History.antt =====
-- The calls of users and the rounds of the worker keep the books, and so does every history of them.
use vpn_platform.Prelude.{ℕ, String, Bool, Option, none, List, [], ◌∷◌, Result, ok, err}
use vpn_platform.Billing.Types.{Error, PaymentOperation, ProviderPayment, WebhookNotification}
use vpn_platform.Billing.Schema.{Database, OutboxRow}
use vpn_platform.Billing.Transaction.{Tx}
use vpn_platform.Billing.Transaction.Keeps.{Keeps}
use vpn_platform.Billing.Payments.{NewPayment}
use vpn_platform.Billing.Service.{
  Config, Outside, Moments, place_new_order, order_call, keep_ambiguous, give_up, accept_created,
  provider_created, create_at_gateway, create_if_new, start_payment, payment_call,
}
use vpn_platform.Billing.Worker.{
  Publisher, Attempt, Round, settled_by, attempt, apply_provider_state, retry_notification,
  webhook_verified, webhook_answered, process_notification, process_webhook, reconcile_created,
  reconcile_verified, reconcile_answered, reconcile_claimed, reconcile_payment, settle_message,
  publish_outbox, work_once,
}
use vpn_platform.Billing.System.{Call, order, payment, webhook, round, step, run, empty_database}
use vpn_platform.Billing.Ledger.{Books, IsExact, Books-IsExact}
use vpn_platform.Billing.Ledger.Operations.{
  read_rules, create_order-Books, find_order_replay-Books, create_payment-Books,
  find_payment_replay-Books,
}
use vpn_platform.Billing.Ledger.Life.{
  prepare_provider_create-Books, apply_provider_create-Books, mark_provider_create_ambiguous-Books,
  mark_provider_create_failed-Books, claim_payment_for_reconcile-Books, reschedule_payment-Books,
  insert_webhook-Books, claim_webhook-Books, complete_webhook-Books, reject_webhook-Books,
  retry_webhook-Books, claim_outbox-Books, complete_outbox-Books, retry_outbox-Books,
}
use vpn_platform.Billing.Ledger.Settlement.{apply_verified_payment-Books}

abbrev I : Database → Type 0
I = Books none

ruleset store_rules = (
  read_rules, create_order-Books, find_order_replay-Books, create_payment-Books,
  find_payment_replay-Books, prepare_provider_create-Books, apply_provider_create-Books,
  mark_provider_create_ambiguous-Books, mark_provider_create_failed-Books,
  claim_payment_for_reconcile-Books, reschedule_payment-Books, claim_webhook-Books,
  complete_webhook-Books, reject_webhook-Books, retry_webhook-Books, claim_outbox-Books,
  complete_outbox-Books, retry_outbox-Books, apply_verified_payment-Books,
)

settled_by_kept :
    {A B : Type 0} (r : Result Error A × Database) (f : A → Tx B) (h : Error → Tx B)
    → I r.1
    → ((a : A) → Keeps I (f a))
    → ((e : Error) → Keeps I (h e))
    → I (settled_by r f h).1
unfolding settled_by
settled_by_kept (ok a, db) f h i kf kh = (kf a).at db i
settled_by_kept (err e, db) f h i kf kh = (kh e).at db i

attempt-Books :
    {A B : Type 0} {m : Tx A} {f : A → Tx B} {h : Error → Tx B}
    → Keeps I m
    → ((a : A) → Keeps I (f a))
    → ((e : Error) → Keeps I (h e))
    → Keeps I (attempt m f h)
unfolding attempt
attempt-Books {m} {f} {h} km kf kh = record {
  at = λ db i. settled_by_kept (m db) f h (km.at db i) kf kh;
}

apply_provider_state-Books :
    (op : PaymentOperation) (p : ProviderPayment) (a : Attempt)
    → Keeps I (apply_provider_state op p a)
unfolding apply_provider_state
apply_provider_state-Books op p a = search store_rules depth 16

module _ (cfg : Config) (out : Outside) where
  place_new_order-Books :
      (u p r t k : String) (uuid : Option String) (now : ℕ)
      → Keeps I (place_new_order cfg out u p r t k uuid now)
  unfolding place_new_order
  place_new_order-Books u p r t k uuid now = search store_rules depth 16

  order_call-Books :
      (u p r t k : String) (uuid : Option String) (now : ℕ)
      → Keeps I (order_call cfg out u p r t k uuid now)
  unfolding order_call
  order_call-Books u p r t k uuid now = search (store_rules, place_new_order-Books) depth 16

  keep_ambiguous-Books :
      (p : PaymentOperation) (e : Error) (now : ℕ) → Keeps I (keep_ambiguous cfg out p e now)
  unfolding keep_ambiguous
  keep_ambiguous-Books p e now = search store_rules depth 16

  give_up-Books :
      (p : PaymentOperation) (e : Error) (code : String) (now : ℕ)
      → Keeps I (give_up cfg out p e code now)
  unfolding give_up
  give_up-Books p e code now = search store_rules depth 16

  accept_created-Books :
      (p : PaymentOperation) (actual : ProviderPayment) (r : Result Error (Unit {0})) (now : ℕ)
      → Keeps I (accept_created cfg out p actual r now)
  unfolding accept_created
  accept_created-Books p actual (ok t) now = search store_rules depth 16
  accept_created-Books p actual (err e) now = give_up-Books p e _ now

  provider_created-Books :
      (p : PaymentOperation) (r : Result Error ProviderPayment) (now : ℕ)
      → Keeps I (provider_created cfg out p r now)
  unfolding provider_created
  provider_created-Books p (ok actual) now = accept_created-Books p actual _ now
  provider_created-Books p (err e) now =
      search (store_rules, keep_ambiguous-Books, give_up-Books) depth 16

  create_at_gateway-Books :
      (p : PaymentOperation) (m : Moments) → Keeps I (create_at_gateway cfg out p m)
  unfolding create_at_gateway
  create_at_gateway-Books p m = search (store_rules, provider_created-Books) depth 16

  create_if_new-Books :
      (made : PaymentOperation × Bool) (m : Moments) → Keeps I (create_if_new cfg out made m)
  unfolding create_if_new
  create_if_new-Books made m = search (store_rules, create_at_gateway-Books) depth 16

  start_payment-Books :
      (u o k : String) (n : NewPayment) (m : Moments) → Keeps I (start_payment cfg out u o k n m)
  unfolding start_payment
  start_payment-Books u o k n m = search (store_rules, create_if_new-Books) depth 16

  payment_call-Books :
      (u o k : String) (n : NewPayment) (m : Moments) → Keeps I (payment_call cfg out u o k n m)
  unfolding payment_call
  payment_call-Books u o k n m = search (store_rules, start_payment-Books) depth 16

  retry_notification-Books :
      (n : WebhookNotification) (code : String) (now : ℕ)
      → Keeps I (retry_notification cfg out n code now)
  unfolding retry_notification
  retry_notification-Books n code now = search store_rules depth 16

  webhook_verified-Books :
      (n : WebhookNotification) (op : PaymentOperation) (p : ProviderPayment)
      (r : Result Error (Unit {0})) (a : Attempt) (now : ℕ)
      → Keeps I (webhook_verified cfg out n op p r a now)
  unfolding webhook_verified
  webhook_verified-Books n op p (ok t) a now =
      search (store_rules, attempt-Books, apply_provider_state-Books, retry_notification-Books)
        depth 16
  webhook_verified-Books n op p (err e) a now = search store_rules depth 16

  webhook_answered-Books :
      (n : WebhookNotification) (op : PaymentOperation) (r : Result Error ProviderPayment)
      (a : Attempt) (now : ℕ)
      → Keeps I (webhook_answered cfg out n op r a now)
  unfolding webhook_answered
  webhook_answered-Books n op (ok p) a now = webhook_verified-Books n op p _ a now
  webhook_answered-Books n op (err e) a now =
      search (store_rules, retry_notification-Books) depth 16

  process_notification-Books :
      (n : WebhookNotification) (a : Attempt) (now : ℕ)
      → Keeps I (process_notification cfg out n a now)
  unfolding process_notification
  process_notification-Books n a now =
      search (store_rules, attempt-Books, webhook_answered-Books, retry_notification-Books) depth 16

  process_webhook-Books : (r : Round) → Keeps I (process_webhook cfg out r)
  unfolding process_webhook
  process_webhook-Books r = search (store_rules, process_notification-Books) depth 16

  reconcile_created-Books :
      (p : PaymentOperation) (r : Round) → Keeps I (reconcile_created cfg out p r)
  unfolding reconcile_created
  reconcile_created-Books p r = search (store_rules, create_at_gateway-Books) depth 16

  reconcile_verified-Books :
      (p : PaymentOperation) (actual : ProviderPayment) (c : Result Error (Unit {0})) (r : Round)
      → Keeps I (reconcile_verified cfg out p actual c r)
  unfolding reconcile_verified
  reconcile_verified-Books p actual (ok t) r = apply_provider_state-Books p actual _
  reconcile_verified-Books p actual (err e) r = search store_rules depth 16

  reconcile_answered-Books :
      (p : PaymentOperation) (c : Result Error ProviderPayment) (r : Round)
      → Keeps I (reconcile_answered cfg out p c r)
  unfolding reconcile_answered
  reconcile_answered-Books p (ok actual) r = reconcile_verified-Books p actual _ r
  reconcile_answered-Books p (err e) r = search store_rules depth 16

  reconcile_payment-Books : (r : Round) → Keeps I (reconcile_payment cfg out r)
  unfolding reconcile_payment reconcile_claimed
  reconcile_payment-Books r =
      search (store_rules, reconcile_created-Books, reconcile_answered-Books) depth 16

  settle_message-Books :
      (publish : Publisher) (now : ℕ) (o : OutboxRow)
      → Keeps I (settle_message cfg out publish now o)
  unfolding settle_message
  settle_message-Books publish now o = search store_rules depth 16

  publish_outbox-Books :
      (publish : Publisher) (r : Round) → Keeps I (publish_outbox cfg out publish r)
  unfolding publish_outbox
  publish_outbox-Books publish r = search (store_rules, settle_message-Books) depth 16

step_books : (cfg : Config) (c : Call) (db : Database) → I db → I (step cfg c db)
unfolding step work_once
step_books cfg (order out u p r t k uuid now) db i =
    (order_call-Books cfg out u p r t k uuid now).at db i
step_books cfg (payment out u o k n m) db i = (payment_call-Books cfg out u o k n m).at db i
step_books cfg (webhook n now) db i = (insert_webhook-Books n now).at db i
step_books cfg (round out publish r) db i =
    (publish_outbox-Books cfg out publish r).at _
      ((reconcile_payment-Books cfg out r).at _ ((process_webhook-Books cfg out r).at db i))

run_books : (cfg : Config) (cs : List Call) (db : Database) → I db → I (run cfg cs db)
unfolding run
run_books cfg [] db i = i
run_books cfg (c ∷ cs) db i = run_books cfg cs (step cfg c db) (step_books cfg c db i)

empty_books : I empty_database
empty_books = record {
  unique = λ p q m n e. absurd m;
  single = λ p q m n e. absurd m;
  named = λ o q m n e. absurd m;
  one_open = λ o q m n e h k. absurd m;
  priced = λ p m. absurd m;
  collected = λ p m e h. absurd m;
  covered = λ o m e. absurd m;
  announced = λ p m e h. absurd m;
  truthful = λ e m h. absurd m;
}

-- After any history of orders, payments, webhooks and worker rounds from an empty database, failing
-- ones included and whatever the provider and the other services answer, the books are sound: orders
-- and payments have ids of their own, an order has at most one payment, which has its amount, a user has
-- at most one open order, a payment succeeded exactly if its order is paid, a paid order has a payment, every payment that succeeded has its event in the outbox, and
-- every such event states the order, user, plan, amount and instant of a payment that succeeded.
pub run-Books :
    (cfg : Config) (cs : List Call)
    → Books none (run cfg cs empty_database) × IsExact (run cfg cs empty_database)
run-Books cfg cs =
    let books = run_books cfg cs empty_database empty_books in
    (books, Books-IsExact (run cfg cs empty_database) books)
