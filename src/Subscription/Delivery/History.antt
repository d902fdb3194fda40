-- ===== src/Subscription/Delivery/History.antt =====
-- The order of delivery after any history of calls.
use vpn_platform.Prelude.{◌<◌, ◌≡◌, ◌≢◌, List, [], ◌∷◌, In}
use vpn_platform.Subscription.Schema.{Runtime, Database, OutboxRow, published, pending}
use vpn_platform.Subscription.System.{
  Call, payment, refund, poison, revoke, round, step, run, empty_database,
}
use vpn_platform.Subscription.Delivery.{InOrder}
use vpn_platform.Subscription.Delivery.Quiet.{record_dead_letter-InOrder}
use vpn_platform.Subscription.Delivery.Operations.{
  handle_payment-InOrder, handle_refund-InOrder, admin_revoke-InOrder, work_once-InOrder,
}

module _ ⦃rt : Runtime⦄ where
  -- Each call keeps it, whether it succeeds or fails.
  pub step-InOrder : (c : Call) (db : Database) → InOrder db → InOrder (step c db)
  unfolding step
  step-InOrder (payment b m p x y z c d) db i = (handle_payment-InOrder b m p x y z c d).at db i
  step-InOrder (refund m r a c) db i = (handle_refund-InOrder m r a c).at db i
  step-InOrder (poison s reason) db i = (record_dead_letter-InOrder s reason).at db i
  step-InOrder (revoke input a c) db i = (admin_revoke-InOrder input a c).at db i
  step-InOrder (round w publish r) db i = work_once-InOrder w publish r db i

  pub run-InOrder : (cs : List Call) (db : Database) → InOrder db → InOrder (run cs db)
  unfolding run
  run-InOrder [] db i = i
  run-InOrder (c ∷ cs) db i = run-InOrder cs (step c db) (step-InOrder c db i)

  empty-InOrder : InOrder empty_database
  empty-InOrder = record {
    unique_ids = λ s t m n e. absurd m;
    unique_events = λ o q m n e. absurd m;
    known = λ o m. absurd m;
    bounded = λ o s m n e. absurd m;
    in_order = λ o q m n e lt h. absurd m;
  }

  -- After any history of payments, refunds, revocations and worker rounds, failing ones included: a
  -- message of the outbox that has been claimed or published has every earlier message of its
  -- subscription published before it.
  pub run-published :
      (cs : List Call) (o q : OutboxRow)
      → In o (run cs empty_database).outbox
      → In q (run cs empty_database).outbox
      → q.aggregate_id ≡ o.aggregate_id
      → q.aggregate_sequence < o.aggregate_sequence
      → o.state ≢ pending
      → q.state ≡ published
  run-published cs = (run-InOrder cs empty_database empty-InOrder).in_order
