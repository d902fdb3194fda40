-- ===== src/Subscription/Outbox/Ordering/Writes.antt =====
-- Each write to the two tables keeps the order of delivery.
use vpn_platform.Prelude.{
  suc, ◌≡◌, refl, sym, ap, ◌∙◌, inl, inr, true, false, List, [], ◌∷◌, ◌++◌, some, arith, ==_iff,
  find, update_where, exists, In,
}
use vpn_platform.Prelude.Tables.{find-passes, exists-false, All-In}
use vpn_platform.Prelude.Tables.Members.{
  update_row, In-append_one, In-append_left, In-update_where, update_where-In,
}
use vpn_platform.Subscription.Schema.{SubscriptionRow, OutboxRow, pending}
use vpn_platform.Subscription.Outbox.{with_id, advanced, clashes}
use vpn_platform.Subscription.Outbox.Ordering.{Ordered, update_subscriptions-Ordered}

module _ {subs : List SubscriptionRow} {rows : List OutboxRow} (i : Ordered subs rows) where
  -- A new subscription has a new id and no events.
  pub create-Ordered :
      (n : SubscriptionRow) → exists (with_id n.id) subs ≡ false → Ordered (subs ++ n ∷ []) rows
  create-Ordered n fresh = record {
    unique_ids = λ s t ms mt e. elim (In-append_one subs n s ms) [
      | inl a ↦ elim (In-append_one subs n t mt) [
        | inl b ↦ i.unique_ids s t a b e
        | inr b ↦ absurd (not_n s a (e ∙ ap (λ (x : SubscriptionRow). x.id) b))
      ]
      | inr a ↦ elim (In-append_one subs n t mt) [
        | inl b ↦ absurd (not_n t b (sym e ∙ ap (λ (x : SubscriptionRow). x.id) a))
        | inr b ↦ a ∙ sym b
      ]
    ];
    unique_events = i.unique_events;
    known = λ o m. let (s, ms, e) = i.known o m in (s, In-append_left subs (n ∷ []) s ms, e);
    bounded = λ o s mo ms e. elim (In-append_one subs n s ms) [
      | inl a ↦ i.bounded o s mo a e
      | inr a ↦
          let (t, mt, et) = i.known o mo in
          absurd (not_n t mt (et ∙ (sym e ∙ ap (λ (x : SubscriptionRow). x.id) a)))
    ];
    in_order = i.in_order;
  }
    where
      not_n : (s : SubscriptionRow) → In s subs → s.id ≡ n.id → ⊥
      not_n s m e =
          ground
            (arith, All-In _ subs s (exists-false (with_id n.id) subs fresh) m, ==_iff s.id n.id)

  -- A new event takes the next number of its aggregate.
  pub send-Ordered :
      (n : OutboxRow) {r : SubscriptionRow}
      → find (with_id n.aggregate_id) subs ≡ some r
      → n.aggregate_sequence ≡ suc r.aggregate_sequence
      → exists (clashes n) rows ≡ false
      → n.state ≡ pending
      → Ordered (update_where (with_id n.aggregate_id) advanced subs) (rows ++ n ∷ [])
  send-Ordered n {r} found next fresh state = record {
    unique_ids = j.unique_ids;
    unique_events = λ o q mo mq e. elim (In-append_one rows n o mo) [
      | inl a ↦ elim (In-append_one rows n q mq) [
        | inl b ↦ i.unique_events o q a b e
        | inr b ↦ absurd (not_n o a (e ∙ ap (λ (x : OutboxRow). x.event_id) b))
      ]
      | inr a ↦ elim (In-append_one rows n q mq) [
        | inl b ↦ absurd (not_n q b (sym e ∙ ap (λ (x : OutboxRow). x.event_id) a))
        | inr b ↦ a ∙ sym b
      ]
    ];
    known = λ o m. elim (In-append_one rows n o m) [
      | inl a ↦ j.known o a
      | inr a ↦ (
        update_row (with_id n.aggregate_id) advanced r,
        update_where-In (with_id n.aggregate_id) advanced subs r member.1,
        ground (arith, r_id, a),
      )
    ];
    bounded = λ o s mo ms e. elim (In-append_one rows n o mo) [
      | inl a ↦ j.bounded o s a ms e
      | inr a ↦
          let (t, mt, et) = In-update_where (with_id n.aggregate_id) advanced subs s ms in
          let t_id : t.id ≡ n.aggregate_id = ground (arith, et, e, a) in
          let same : r ≡ t = i.unique_ids r t member.1 mt (r_id ∙ sym t_id) in
          ground (arith, et, a, next, same, t_id, ==_iff t.id n.aggregate_id)
    ];
    in_order = λ o q mo mq e lt moved. elim (In-append_one rows n o mo) [
      | inr a ↦ absurd (moved (ground (arith, a, state)))
      | inl a ↦ elim (In-append_one rows n q mq) [
        | inl b ↦ i.in_order o q a b e lt moved
        | inr b ↦
            absurd
              (ground (arith, b, i.bounded o r a member.1 (ground (arith, r_id, b, e)), next, lt))
      ]
    ];
  }
    where
      j : Ordered (update_where (with_id n.aggregate_id) advanced subs) rows
      j =
          update_subscriptions-Ordered (with_id n.aggregate_id) advanced (λ s. refl)
            (λ s. omega arith) i

      member : (with_id n.aggregate_id r ≡ true) × In r subs
      member = find-passes (with_id n.aggregate_id) subs found

      r_id : r.id ≡ n.aggregate_id
      r_id = (==_iff r.id n.aggregate_id).0 member.0

      not_n : (o : OutboxRow) → In o rows → o.event_id ≡ n.event_id → ⊥
      not_n o m e = ground (
        arith,
        All-In _ rows o (exists-false (clashes n) rows fresh) m,
        ==_iff n.event_id o.event_id,
      )
