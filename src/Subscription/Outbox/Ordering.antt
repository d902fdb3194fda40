-- ===== src/Subscription/Outbox/Ordering.antt =====
-- The order of delivery: a message is claimed, and published, only behind all earlier ones of its
-- aggregate.
pub mod Writes
pub mod Steps
use vpn_platform.Prelude.{
  suc, ℕ, ◌≤◌, ◌<◌, ◌≡◌, ◌≢◌, refl, sym, ap, ◌∙◌, ◌⊎◌, inl, inr, String, Bool, true, false, not,
  List, [], ◌∷◌, ◌++◌, some, arith, ◌==◌, ==_iff, ==_self, if◌then◌else◌, find, update_where,
  exists, In, Bool-cases, All,
}
use vpn_platform.Prelude.Tables.{find-passes, exists-false, exists_of_In, All-In}
use vpn_platform.Prelude.Tables.Members.{
  update_row, In-append_one, In-append_left, In-append_last, In-update_where, update_where-In,
}
use vpn_platform.Subscription.Schema.{
  SubscriptionRow, OutboxRow, OutboxState, pending, processing, published,
}
use vpn_platform.Subscription.Outbox.{
  with_id, advanced, clashes, blocks, is_published, is_processing, in_flight, with_event,
}

pub record Ordered (subs : List SubscriptionRow) (rows : List OutboxRow) : Type 0 where
  pub unique_ids : (s t : SubscriptionRow) → In s subs → In t subs → s.id ≡ t.id → s ≡ t
  pub unique_events : (o q : OutboxRow) → In o rows → In q rows → o.event_id ≡ q.event_id → o ≡ q
  pub known :
      (o : OutboxRow) → In o rows → (s : SubscriptionRow) × In s subs × (s.id ≡ o.aggregate_id)
  pub bounded :
      (o : OutboxRow) (s : SubscriptionRow)
      → In o rows
      → In s subs
      → s.id ≡ o.aggregate_id
      → o.aggregate_sequence ≤ s.aggregate_sequence
  pub in_order :
      (o q : OutboxRow)
      → In o rows
      → In q rows
      → q.aggregate_id ≡ o.aggregate_id
      → q.aggregate_sequence < o.aggregate_sequence
      → o.state ≢ pending
      → q.state ≡ published

-- An update of subscriptions that keeps their ids, and their sequences or more.
module _ (p : SubscriptionRow → Bool) (f : SubscriptionRow → SubscriptionRow) where
  pub update_subscriptions-Ordered :
      {subs : List SubscriptionRow} {rows : List OutboxRow}
      → ((s : SubscriptionRow) → (f s).id ≡ s.id)
      → ((s : SubscriptionRow) → s.aggregate_sequence ≤ (f s).aggregate_sequence)
      → Ordered subs rows
      → Ordered (update_where p f subs) rows
  update_subscriptions-Ordered {subs} {rows} same more i = record {
    unique_ids = λ s t ms mt e.
        let (a, ma, ea) = In-update_where p f subs s ms in
        let (b, mb, eb) = In-update_where p f subs t mt in
        ea
        ∙ ap (update_row p f)
            (i.unique_ids a b ma mb (sym (id_of a) ∙ (sym (ap id ea) ∙ (e ∙ (ap id eb ∙ id_of b)))))
        ∙ sym eb;
    unique_events = i.unique_events;
    known = λ o m.
        let (s, ms, e) = i.known o m in
        (update_row p f s, update_where-In p f subs s ms, id_of s ∙ e);
    bounded = λ o s mo ms e.
        let (a, ma, ea) = In-update_where p f subs s ms in
        let h = i.bounded o a mo ma (sym (id_of a) ∙ (sym (ap id ea) ∙ e)) in
        omega (arith, grown a, ap sequence ea, h);
    in_order = i.in_order;
  }
    where
      id : SubscriptionRow → String
      id s = s.id

      sequence : SubscriptionRow → ℕ
      sequence s = s.aggregate_sequence

      id_of : (s : SubscriptionRow) → (update_row p f s).id ≡ s.id
      id_of s = ground (arith, same s)

      grown : (s : SubscriptionRow) → s.aggregate_sequence ≤ (update_row p f s).aggregate_sequence
      grown s = ground (arith, more s)
