-- ===== src/Subscription/Outbox/Ordering/Steps.antt =====
-- The life of a message keeps the order of delivery: claim, completion and retry.
use vpn_platform.Prelude.{
  ℕ, ◌<◌, ◌≡◌, ◌≢◌, refl, sym, ap, ◌∙◌, inl, inr, String, Bool, true, List, arith, ==_iff,
  update_where, In, Bool-cases,
}
use vpn_platform.Prelude.Int.{ℤ}
use vpn_platform.Prelude.Tables.{exists-false, All-In}
use vpn_platform.Prelude.Tables.Members.{update_row, In-update_where}
use vpn_platform.Subscription.Schema.{SubscriptionRow, OutboxRow, pending, published}
use vpn_platform.Subscription.Outbox.{
  claimable, claimed, completed, retried, blocks, in_flight, with_event,
}
use vpn_platform.Subscription.Outbox.Ordering.{Ordered}

abbrev aggregate : OutboxRow → String
aggregate o = o.aggregate_id

abbrev number : OutboxRow → ℕ
number o = o.aggregate_sequence

-- An update of messages that leaves their keys alone, and never frees a later message.
module _ {subs : List SubscriptionRow} {rows : List OutboxRow} (i : Ordered subs rows)
    (p : OutboxRow → Bool) (f : OutboxRow → OutboxRow)
    (same_event : (o : OutboxRow) → (f o).event_id ≡ o.event_id)
    (same_aggregate : (o : OutboxRow) → (f o).aggregate_id ≡ o.aggregate_id)
    (same_number : (o : OutboxRow) → (f o).aggregate_sequence ≡ o.aggregate_sequence)
    (ordered : (o q : OutboxRow)
      → In o rows
      → In q rows
      → q.aggregate_id ≡ o.aggregate_id
      → q.aggregate_sequence < o.aggregate_sequence
      → (update_row p f o).state ≢ pending
      → (update_row p f q).state ≡ published) where
  row_event : (o : OutboxRow) → (update_row p f o).event_id ≡ o.event_id
  row_event o = ground (arith, same_event o)

  row_aggregate : (o : OutboxRow) → (update_row p f o).aggregate_id ≡ o.aggregate_id
  row_aggregate o = ground (arith, same_aggregate o)

  row_number : (o : OutboxRow) → (update_row p f o).aggregate_sequence ≡ o.aggregate_sequence
  row_number o = ground (arith, same_number o)

  pub update_outbox-Ordered : Ordered subs (update_where p f rows)
  update_outbox-Ordered = record {
    unique_ids = i.unique_ids;
    unique_events = λ o q mo mq e.
        let (a, ma, ea) = In-update_where p f rows o mo in
        let (b, mb, eb) = In-update_where p f rows q mq in
        ea
        ∙ ap (update_row p f)
            (i.unique_events a b ma mb (ground (arith, row_event a, row_event b, ea, eb, e)))
        ∙ sym eb;
    known = λ o m.
        let (a, ma, ea) = In-update_where p f rows o m in
        let (s, ms, e) = i.known a ma in
        (s, ms, e ∙ (sym (row_aggregate a) ∙ sym (ap aggregate ea)));
    bounded = λ o s mo ms e.
        let (a, ma, ea) = In-update_where p f rows o mo in
        let h = i.bounded a s ma ms (e ∙ (ap aggregate ea ∙ row_aggregate a)) in
        omega (arith, ap number ea, row_number a, h);
    in_order = λ o q mo mq e lt moved.
        let (a, ma, ea) = In-update_where p f rows o mo in
        let (b, mb, eb) = In-update_where p f rows q mq in
        ap (λ (x : OutboxRow). x.state) eb
        ∙ ordered a b ma mb
            (sym (row_aggregate b)
              ∙ (sym (ap aggregate eb) ∙ (e ∙ (ap aggregate ea ∙ row_aggregate a))))
            (omega (arith, ap number ea, ap number eb, row_number a, row_number b))
            (λ h. moved (ap (λ (x : OutboxRow). x.state) ea ∙ h));
  }

module _ {subs : List SubscriptionRow} {rows : List OutboxRow} (i : Ordered subs rows) where
  pub complete-Ordered :
      (id : String) (now : ℕ) → Ordered subs (update_where (in_flight id) (completed now) rows)
  complete-Ordered id now =
      update_outbox-Ordered i (in_flight id) (completed now) (λ o. refl) (λ o. refl) (λ o. refl)
        λ o q mo mq e lt moved. ground (arith, i.in_order o q mo mq e lt)

  pub retry-Ordered :
      (id : String) (now : ℕ) (delay : ℤ)
      → Ordered subs (update_where (in_flight id) (retried now delay) rows)
  retry-Ordered id now delay =
      update_outbox-Ordered i (in_flight id) (retried now delay) (λ o. refl) (λ o. refl) (λ o. refl)
        λ o q mo mq e lt moved. ground (arith, i.in_order o q mo mq e lt)

  -- A message that the query returns has nothing unpublished before it.
  pub claimable_first :
      (c q : OutboxRow) (now : ℕ)
      → claimable now rows c ≡ true
      → In q rows
      → q.aggregate_id ≡ c.aggregate_id
      → q.aggregate_sequence < c.aggregate_sequence
      → q.state ≡ published
  claimable_first c q now h mq e lt = ground (
    arith,
    All-In _ rows q (exists-false (blocks c) rows (ground arith)) mq,
    ==_iff q.aggregate_id c.aggregate_id,
  )

  pub claim-Ordered :
      (c : OutboxRow) (now lease : ℕ)
      → In c rows
      → claimable now rows c ≡ true
      → Ordered subs (update_where (with_event c.event_id) (claimed now lease) rows)
  claim-Ordered c now lease mc h =
      update_outbox-Ordered i (with_event c.event_id) (claimed now lease) (λ o. refl) (λ o. refl)
        (λ o. refl)
        λ o q mo mq e lt moved. elim (Bool-cases (with_event c.event_id q)) [
          | inl hit ↦
              let same = i.unique_events q c mq mc ((==_iff q.event_id c.event_id).0 hit) in
              elim (Bool-cases (with_event c.event_id o)) [
                | inl hit_o ↦
                    let same_o =
                      i.unique_events o c mo mc ((==_iff o.event_id c.event_id).0 hit_o) in
                    absurd (omega (arith, ap number same, ap number same_o))
                | inr miss_o ↦
                    let sent = i.in_order o q mo mq e lt (ground arith) in ground (arith, same)
              ]
          | inr miss ↦ elim (Bool-cases (with_event c.event_id o)) [
            | inl hit_o ↦
                let same_o = i.unique_events o c mo mc ((==_iff o.event_id c.event_id).0 hit_o) in
                ground (
                  arith,
                  claimable_first c q now h mq (e ∙ ap aggregate same_o)
                      (omega (arith, ap number same_o)),
                )
            | inr miss_o ↦ ground (arith, i.in_order o q mo mq e lt)
          ]
        ]
