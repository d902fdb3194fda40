-- ===== src/Subscription/Worker.antt =====
-- services/subscription/internal/application/worker.go: one round of the background worker.
use vpn_platform.Prelude.{ℕ, Bool, Option, String}
use vpn_platform.Prelude.Int.{ℤ}
use vpn_platform.Subscription.Schema.{Runtime, Database, OutboxRow}
use vpn_platform.Subscription.Transaction.{Tx, ◌>>=◌, return, branch, maybe, Clock}
use vpn_platform.Subscription.Backoff.{retry_backoff}
use vpn_platform.Subscription.Inbox.{claim_refund}
use vpn_platform.Subscription.Refund.{apply_claimed_refund}
use vpn_platform.Subscription.Due.{claim_due, complete_due}
use vpn_platform.Subscription.Outbox.{claim_outbox, complete_outbox, retry_outbox}

pub record Worker : Type 0 where
  pub retry_delay : ℤ
  pub lease : ℕ

-- `Publisher.Publish`: did the broker take the message?
abbrev pub Publisher : Type 0
Publisher = OutboxRow → Bool

-- What one round takes from outside: the clocks of its statements and the random texts.
pub record Round : Type 0 where
  pub refund_claimed_at : ℕ
  pub refund_clock : Clock
  pub refund_uuid : Option String
  pub due_claimed_at : ℕ
  pub due_clock : Clock
  pub due_uuid : Option String
  pub outbox_claimed_at : ℕ
  pub outbox_settled_at : ℕ

module _ ⦃rt : Runtime⦄ (w : Worker) where
  unfoldable pub reconcile_refund : Round → Tx (Unit {0})
  reconcile_refund r = do
    claimed ← claim_refund r.refund_claimed_at w.lease
    maybe claimed (return tt) (λ work.
        apply_claimed_refund work (retry_backoff w.retry_delay work.attempts) r.refund_uuid
          r.refund_clock)

  unfoldable pub advance_lifecycle : Round → Tx (Unit {0})
  advance_lifecycle r = do
    claimed ← claim_due r.due_claimed_at w.lease
    maybe claimed (return tt) (λ s. complete_due s.subscription_id r.due_uuid r.due_clock)

  -- The answer of the broker decides between the two ends of the attempt.
  unfoldable pub settle_message : Publisher → ℕ → OutboxRow → Tx (Unit {0})
  settle_message publish now o =
      branch (publish o) (complete_outbox now o.event_id)
        (retry_outbox now o.event_id (retry_backoff w.retry_delay o.attempts))

  unfoldable pub publish_outbox : Publisher → Round → Tx (Unit {0})
  publish_outbox publish r = do
    claimed ← claim_outbox r.outbox_claimed_at w.lease
    maybe claimed (return tt) (settle_message publish r.outbox_settled_at)

  -- `workOnce`: the errors of the three parts are logged, and what each has committed stays.
  unfoldable pub work_once : Publisher → Round → Database → Database
  work_once publish r db =
      (publish_outbox publish r (advance_lifecycle r (reconcile_refund r db).1).1).1
