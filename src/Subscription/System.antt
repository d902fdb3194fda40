-- ===== src/Subscription/System.antt =====
-- The service as a whole: calls of services/subscription/internal/kafka/consumer.go (one valid event
-- each, or a dead letter), of internal/httpapi/handler.go and rounds of the worker, one after another.
use vpn_platform.Prelude.{String, Option, List, [], ◌∷◌}
use vpn_platform.Subscription.Types.{EventMeta, PaymentSucceeded, RefundSucceeded, AdminRevokeInput}
use vpn_platform.Subscription.Schema.{Runtime, Database, SourceRecord}
use vpn_platform.Subscription.Transaction.{Clock}
use vpn_platform.Subscription.Inbox.{record_dead_letter}
use vpn_platform.Subscription.Admin.{admin_revoke}
use vpn_platform.Subscription.Service.{Billing, handle_payment, handle_refund}
use vpn_platform.Subscription.Worker.{Worker, Publisher, Round, work_once}

pub data Call : Type 0 where
  payment :
      Billing
      → EventMeta
      → PaymentSucceeded
      → Option String
      → Option String
      → Option String
      → Clock
      → Clock
      → Call
  refund : EventMeta → RefundSucceeded → Option String → Clock → Call
  poison : SourceRecord → String → Call
  revoke : AdminRevokeInput → Option String → Clock → Call
  round : Worker → Publisher → Round → Call

module _ ⦃rt : Runtime⦄ where
  unfoldable pub step : Call → Database → Database
  step (payment get_order meta p a b c replay_clock clock) db =
      (handle_payment get_order meta p a b c replay_clock clock db).1
  step (refund meta r a clock) db = (handle_refund meta r a clock db).1
  step (poison s reason) db = (record_dead_letter s reason db).1
  step (revoke input a clock) db = (admin_revoke input a clock db).1
  step (round w publish r) db = work_once w publish r db

  unfoldable pub run : List Call → Database → Database
  run [] db = db
  run (c ∷ cs) db = run cs (step c db)

abbrev pub empty_database : Database
empty_database = record {
  subscriptions = [];
  periods = [];
  inbox = [];
  outbox = [];
  dead_letters = [];
  admin_revokes = [];
}
