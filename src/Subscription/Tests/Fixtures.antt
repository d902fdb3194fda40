-- ===== src/Subscription/Tests/Fixtures.antt =====
-- A concrete history of the service: two payments of one user, and two rounds of the worker.
use vpn_platform.Prelude.{ℕ, zero, suc, refl, String, true, none, some, ok, List, [], ◌∷◌}
use vpn_platform.Prelude.Int.{pos}
use vpn_platform.Subscription.Types.{EventMeta, PaymentSucceeded, Order}
use vpn_platform.Subscription.Schema.{Runtime, Database, OutboxRow}
use vpn_platform.Subscription.Transaction.{Clock}
use vpn_platform.Subscription.Outbox.{outbox_row}
use vpn_platform.Subscription.Admin.{admin_event}
use vpn_platform.Subscription.System.{Call, payment, round, run, empty_database}

instance abbrev pub runtime : Runtime
runtime = record { uuid_text = λ s. s; uuid_text_idem = λ s. refl; rfc3339_nano = λ t. "" }

abbrev pub user : String
user = "00000000-0000-4000-8000-000000000001"

abbrev pub id1 : String
id1 = "00000000-0000-4000-8000-000000000011"

abbrev pub id2 : String
id2 = "00000000-0000-4000-8000-000000000012"

abbrev pub hash : String
hash = "0123456789abcdef0123456789abcdef0123456789abcdef0123456789abcdef"

abbrev pub meta : String → ℕ → EventMeta
meta id offset = record {
  event_id = id;
  event_type = "billing.payment.succeeded.v1";
  aggregate_id = id;
  correlation_id = id;
  causation_id = none;
  occurred_at = 5;
  source_topic = "billing.payment.succeeded.v1";
  source_partition = pos 0;
  source_offset = pos offset;
  payload_sha256 = hash;
}

abbrev pub bought : String → PaymentSucceeded
bought id = record {
  payment_id = id;
  order_id = id;
  user_id = user;
  plan_id = "monthly";
  amount_minor = pos 500;
  currency = "EUR";
  paid_at = 5;
}

abbrev pub order : String → Order
order id = record {
  order_id = id;
  user_id = user;
  status = "paid";
  amount_minor = pos 500;
  currency = "EUR";
  plan_snapshot = record {
    plan_id = "monthly";
    duration_days = pos 30;
    grace_period_hours = pos 72;
    amount_minor = pos 500;
    currency = "EUR";
    region = "eu";
    primary_nodes = pos 1;
    failover_nodes = pos 1;
  };
}

abbrev pub at_time : ℕ → Clock
at_time t = record { started_at = t; now = t }

abbrev pub pay : String → ℕ → String → Call
pay id offset message =
    payment (λ u o. ok (order id)) (meta id offset) (bought id) (some "subscription") (some id)
      (some message) (at_time 10) (at_time 10)

abbrev pub work : ℕ → Call
work t =
    round (record { retry_delay = pos 1000000000; lease = 30000000000 }) (λ o. true)
      (record {
        refund_claimed_at = t;
        refund_clock = at_time t;
        refund_uuid = some "r";
        due_claimed_at = t;
        due_clock = at_time t;
        due_uuid = some "d";
        outbox_claimed_at = t;
        outbox_settled_at = t;
      })

abbrev pub history : List Call
history = pay id1 1 "message1" ∷ pay id2 2 "message2" ∷ work 20 ∷ work 30 ∷ []

abbrev pub no_message : OutboxRow
no_message =
    outbox_row
      (admin_event
        (record {
          subscription_id = "";
          idempotency_key = "";
          request_sha256 = "";
          action_id = "";
          correlation_id = "";
          reason_code = "";
        })
        "" 0)
      "" 0 (at_time 0)

abbrev pub row_at : ℕ → List OutboxRow → OutboxRow
row_at n [] = no_message
row_at zero (o ∷ os) = o
row_at (suc n) (o ∷ os) = row_at n os

abbrev pub final : Database
final = run history empty_database
