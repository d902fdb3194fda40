-- ===== src/Billing/System.antt =====
-- The service as a whole: calls of services/billing/internal/httpapi/handler.go and rounds of the
-- worker, one after another.
use vpn_platform.Prelude.{ℕ, String, Option, List, [], ◌∷◌}
use vpn_platform.Billing.Types.{WebhookNotification}
use vpn_platform.Billing.Schema.{Database}
use vpn_platform.Billing.Payments.{NewPayment}
use vpn_platform.Billing.Queues.{insert_webhook}
use vpn_platform.Billing.Service.{Config, Outside, Moments, order_call, payment_call}
use vpn_platform.Billing.Worker.{Publisher, Round, work_once}

pub data Call : Type 0 where
  order : Outside → (user_id plan_id region terms key : String) → Option String → ℕ → Call
  payment : Outside → (user_id order_id key : String) → NewPayment → Moments → Call
  webhook : WebhookNotification → ℕ → Call
  round : Outside → Publisher → Round → Call

module _ (cfg : Config) where
  unfoldable pub step : Call → Database → Database
  step (order out user_id plan_id region terms key uuid now) db =
      (order_call cfg out user_id plan_id region terms key uuid now db).1
  step (payment out user_id order_id key n m) db =
      (payment_call cfg out user_id order_id key n m db).1
  step (webhook n now) db = (insert_webhook n now db).1
  step (round out publish r) db = work_once cfg out publish r db

  unfoldable pub run : List Call → Database → Database
  run [] db = db
  run (c ∷ cs) db = run cs (step c db)

abbrev pub empty_database : Database
empty_database = record {
  orders = [];
  payments = [];
  idempotency_keys = [];
  webhooks = [];
  outbox = [];
}
