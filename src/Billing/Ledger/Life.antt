-- ===== src/Billing/Ledger/Life.antt =====
-- The life of a payment at the provider, and the two queues, keep the books.
use vpn_platform.Prelude.{ℕ, String, Bool, none, refl}
use vpn_platform.Prelude.Int.{ℤ}
use vpn_platform.Store.Keeps.{put-Keeps}
use vpn_platform.Billing.Types.{PaymentOperation, ProviderPayment, WebhookNotification}
use vpn_platform.Billing.Schema.{Database, PaymentRow, OutboxRow, WebhookRow, WebhookState}
use vpn_platform.Billing.Transaction.{write_outbox}
use vpn_platform.Billing.Transaction.Keeps.{Keeps, keeps_rules}
use vpn_platform.Billing.Creation.{
  expire_creation, prepare_provider_create, adopt_payment, apply_provider_create,
  mark_provider_create_ambiguous, mark_provider_create_failed, lease_payment,
  claim_payment_for_reconcile, reschedule_payment,
}
use vpn_platform.Billing.Queues.{
  insert_webhook, lease_webhook, claim_webhook, finish_webhook, complete_webhook, reject_webhook,
  retry_webhook, lease_message, claim_outbox, complete_outbox, retry_outbox, leased_message,
}
use vpn_platform.Prelude.{update_where}
use vpn_platform.Billing.Ledger.{Books}
use vpn_platform.Billing.Ledger.Events.{update_events-Sound}
use vpn_platform.Billing.Ledger.Operations.{read_rules}

abbrev I : Database → Type 0
I = Books none

expire_creation-Books : (p : PaymentOperation) (now : ℕ) → Keeps I (expire_creation p now)
unfolding expire_creation
expire_creation-Books p now = search read_rules depth 12

pub prepare_provider_create-Books :
    (id : String) (observed now : ℕ) → Keeps I (prepare_provider_create id observed now)
unfolding prepare_provider_create
prepare_provider_create-Books id observed now = search (read_rules, expire_creation-Books) depth 12

adopt_payment-Books :
    (id : String) (p : ProviderPayment) (now : ℕ) → Keeps I (adopt_payment id p now)
unfolding adopt_payment
adopt_payment-Books id p now = search read_rules depth 12

pub apply_provider_create-Books :
    (id : String) (p : ProviderPayment) (now : ℕ) → Keeps I (apply_provider_create id p now)
unfolding apply_provider_create
apply_provider_create-Books id p now = search (read_rules, adopt_payment-Books) depth 12

pub mark_provider_create_ambiguous-Books :
    (id code : String) (delay : ℤ) (now : ℕ)
    → Keeps I (mark_provider_create_ambiguous id code delay now)
unfolding mark_provider_create_ambiguous
mark_provider_create_ambiguous-Books id code delay now = search read_rules depth 12

pub mark_provider_create_failed-Books :
    (id code : String) (now : ℕ) → Keeps I (mark_provider_create_failed id code now)
unfolding mark_provider_create_failed
mark_provider_create_failed-Books id code now = search read_rules depth 12

lease_payment-Books : (now lease : ℕ) (p : PaymentRow) → Keeps I (lease_payment now lease p)
unfolding lease_payment
lease_payment-Books now lease p = search read_rules depth 12

pub claim_payment_for_reconcile-Books :
    (now lease : ℕ) → Keeps I (claim_payment_for_reconcile now lease)
unfolding claim_payment_for_reconcile
claim_payment_for_reconcile-Books now lease = search (read_rules, lease_payment-Books) depth 12

pub reschedule_payment-Books :
    (id code : String) (delay : ℤ) (now : ℕ) → Keeps I (reschedule_payment id code delay now)
unfolding reschedule_payment
reschedule_payment-Books id code delay now = search read_rules depth 12

pub insert_webhook-Books : (n : WebhookNotification) (now : ℕ) → Keeps I (insert_webhook n now)
unfolding insert_webhook
insert_webhook-Books n now = search read_rules depth 12

lease_webhook-Books : (now lease : ℕ) (r : WebhookRow) → Keeps I (lease_webhook now lease r)
unfolding lease_webhook
lease_webhook-Books now lease r = search read_rules depth 12

pub claim_webhook-Books : (now lease : ℕ) → Keeps I (claim_webhook now lease)
unfolding claim_webhook
claim_webhook-Books now lease = search (read_rules, lease_webhook-Books) depth 12

finish_webhook-Books :
    (id : String) (s : WebhookState) (code : String) (now : ℕ)
    → Keeps I (finish_webhook id s code now)
unfolding finish_webhook
finish_webhook-Books id s code now = search read_rules depth 12

pub complete_webhook-Books : (id code : String) (now : ℕ) → Keeps I (complete_webhook id code now)
unfolding complete_webhook
complete_webhook-Books id code now = finish_webhook-Books _ _ _ _

pub reject_webhook-Books : (id code : String) (now : ℕ) → Keeps I (reject_webhook id code now)
unfolding reject_webhook
reject_webhook-Books id code now = finish_webhook-Books _ _ _ _

pub retry_webhook-Books :
    (id code : String) (delay : ℤ) (now : ℕ) → Keeps I (retry_webhook id code delay now)
unfolding retry_webhook
retry_webhook-Books id code delay now = search read_rules depth 12

leased_outbox-Books :
    (p : OutboxRow → Bool) (now lease : ℕ)
    → Keeps I (write_outbox (update_where p (leased_message now lease)))
unfolding write_outbox
leased_outbox-Books p now lease =
    put-Keeps _ (λ db i. update_events-Sound i p _ (λ e. refl) (λ e. refl) (λ e. refl))

lease_message-Books : (now lease : ℕ) (o : OutboxRow) → Keeps I (lease_message now lease o)
unfolding lease_message
lease_message-Books now lease o = search (keeps_rules, leased_outbox-Books) depth 12

pub claim_outbox-Books : (now lease : ℕ) → Keeps I (claim_outbox now lease)
unfolding claim_outbox
claim_outbox-Books now lease = search (keeps_rules, lease_message-Books) depth 12

pub complete_outbox-Books : (id : String) (now : ℕ) → Keeps I (complete_outbox id now)
unfolding complete_outbox write_outbox
complete_outbox-Books id now =
    put-Keeps _ (λ db i. update_events-Sound i _ _ (λ e. refl) (λ e. refl) (λ e. refl))

pub retry_outbox-Books : (id : String) (delay : ℤ) (now : ℕ) → Keeps I (retry_outbox id delay now)
unfolding retry_outbox write_outbox
retry_outbox-Books id delay now =
    put-Keeps _ (λ db i. update_events-Sound i _ _ (λ e. refl) (λ e. refl) (λ e. refl))
