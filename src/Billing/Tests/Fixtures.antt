-- ===== src/Billing/Tests/Fixtures.antt =====
-- A concrete history of the billing service: an order, its payment, the provider's webhook and a round
-- of the worker.
use vpn_platform.Prelude.{ℕ, String, true, false, none, some, ok, List, [], ◌∷◌, Option}
use vpn_platform.Prelude.Int.{pos}
use vpn_platform.Billing.Types.{
  PlanSnapshot, ProviderPayment, WebhookNotification, failed, canceled,
}
use vpn_platform.Billing.Schema.{Database, OrderRow, PaymentRow}
use vpn_platform.Billing.Payments.{NewPayment}
use vpn_platform.Billing.Service.{Config, Outside, Moments}
use vpn_platform.Billing.Worker.{Attempt, Round}
use vpn_platform.Billing.System.{Call, order, payment, webhook, round}

abbrev pub user : String
user = "00000000-0000-4000-8000-000000000001"

abbrev pub order_uuid : String
order_uuid = "00000000-0000-4000-8000-000000000011"

abbrev pub payment_uuid : String
payment_uuid = "00000000-0000-4000-8000-000000000012"

abbrev pub event_uuid : String
event_uuid = "00000000-0000-4000-8000-000000000013"

abbrev pub hash : String
hash = "0123456789abcdef0123456789abcdef0123456789abcdef0123456789abcdef"

abbrev pub plan : PlanSnapshot
plan = record {
  plan_id = "monthly";
  name = "Monthly";
  duration_days = pos 30;
  grace_period_hours = pos 72;
  amount_minor = pos 50000;
  currency = "RUB";
  region = "eu";
  region_policy = "fixed";
  traffic_policy = "unlimited";
  primary_nodes = pos 1;
  failover_nodes = pos 1;
}

abbrev pub reported : String → Option ℕ → ProviderPayment
reported status captured_at = record {
  provider_payment_id = "yk-1";
  status = status;
  amount_minor = pos 50000;
  currency = "RUB";
  confirmation_url = some "https://pay.example/1";
  test = true;
  account_id = "shop";
  metadata_order_id = order_uuid;
  metadata_payment_id = payment_uuid;
  captured_at = captured_at;
  canceled_at = none;
}

abbrev pub config : Config
config = record {
  shop_id = "shop";
  create_window = pos 600000000000;
  retry_delay = pos 1000000000;
  lease = 30000000000;
}

abbrev pub outside : Outside
outside = record {
  verify_active_with_consent = λ u t. ok tt;
  get_plan = λ p r. ok plan;
  create_at_provider = λ r. ok (reported "pending" none);
  get_at_provider = λ id. ok (reported "succeeded" (some 70));
  sha256_hex = λ s. hash;
  jitter = λ k n. 7;
  https_url = λ s. true;
}

abbrev pub new_payment : NewPayment
new_payment = record {
  payment_uuid = some payment_uuid;
  key_uuid = some event_uuid;
  started_at = 20;
  clock = 20;
}

abbrev pub moments : Moments
moments = record { ended = false; observed_at = 30; prepared_at = 31; applied_at = 32 }

abbrev pub attempt_at : Attempt
attempt_at = record {
  correlation_uuid = some event_uuid;
  event_uuid = some event_uuid;
  observed_at = 80;
  applied_at = 81;
}

abbrev pub work : Round
work = record {
  webhook_claimed_at = 79;
  webhook_attempt = attempt_at;
  webhook_settled_at = 82;
  payment_claimed_at = 83;
  payment_moments = moments;
  payment_attempt = attempt_at;
  payment_settled_at = 84;
  outbox_claimed_at = 85;
  outbox_settled_at = 86;
}

abbrev pub notification : WebhookNotification
notification = record {
  inbox_id = event_uuid;
  event_type = "payment.succeeded";
  provider_object_id = "yk-1";
  observed_status = "succeeded";
  attempts = 0;
}

abbrev pub order_placed : Call
order_placed = order outside user "monthly" "eu" "v1" "key-0001" (some order_uuid) 10

abbrev pub payment_started : Call
payment_started = payment outside user order_uuid "key-0002" new_payment moments

abbrev pub history : List Call
history =
    order_placed ∷ payment_started ∷ webhook notification 75 ∷ round outside (λ o. true) work ∷ []

-- The tables with a payment that was given up.
abbrev pub given_up_order : OrderRow
given_up_order = record {
  id = order_uuid;
  user_id = user;
  status = canceled;
  amount_minor = pos 50000;
  currency = "RUB";
  plan_id = "monthly";
  region = "eu";
  accepted_terms_version = "v1";
  plan_snapshot = plan;
  created_at = 10;
  updated_at = 40;
}

abbrev pub given_up : PaymentRow
given_up = record {
  id = payment_uuid;
  order_id = order_uuid;
  provider = "yookassa";
  provider_payment_id = some "yk-1";
  provider_idempotency_key = event_uuid;
  status = failed;
  amount_minor = pos 50000;
  currency = "RUB";
  confirmation_url = none;
  provider_create_deadline = 600000000020;
  next_reconcile_at = 32;
  reconcile_lease_until = none;
  reconcile_attempts = 1;
  last_error_code = some "http_401";
  paid_at = none;
  canceled_at = none;
  created_at = 20;
  updated_at = 40;
}

abbrev pub after_failure : Database
after_failure = record {
  orders = given_up_order ∷ [];
  payments = given_up ∷ [];
  idempotency_keys = [];
  webhooks = [];
  outbox = [];
}
