-- ===== src/Billing/Ledger/Events.antt =====
-- Writes to `outbox` keep the books, and a payment whose order is paid and whose event is written is
-- settled.
use vpn_platform.Prelude.{
  Bool, String, Option, none, some, List, [], ◌∷◌, ◌++◌, ◌≡◌, refl, sym, ◌∙◌, ap, inl, inr, arith,
  update_where, In, Bool-cases, ==_iff, ◌==◌,
}
use vpn_platform.Prelude.Tables.Members.{
  update_row, In-append_one, In-append_left, In-update_where, update_where-In,
}
use vpn_platform.Billing.Schema.{OrderRow, PaymentRow, OutboxRow, Envelope}
use vpn_platform.Billing.Verified.{succeeded_topic}
use vpn_platform.Billing.Ledger.{Sound, IsTrue, HasPaidOrder, IsAnnounced}

module _ {x : Option String} {orders : List OrderRow} {payments : List PaymentRow}
    {outbox : List OutboxRow} (i : Sound x orders payments outbox) where
  -- A new event, true if it announces a success.
  pub insert_event-Sound :
      (n : OutboxRow)
      → (n.topic ≡ succeeded_topic → IsTrue orders payments n)
      → Sound x orders payments (outbox ++ n ∷ [])
  insert_event-Sound n true' = record {
    unique = i.unique;
    single = i.single;
    named = i.named;
    one_open = i.one_open;
    priced = i.priced;
    collected = i.collected;
    covered = i.covered;
    announced = λ r m e h.
        let (v, mv, e1, e2) = i.announced r m e h in
        (v, In-append_left outbox (n ∷ []) v mv, e1, e2);
    truthful = λ e m h. elim (In-append_one outbox n e m) [
      | inl a ↦ i.truthful e a h
      | inr a ↦ rw a (true' (rw a at h))
    ];
  }

  -- The life of a message leaves what it says alone.
  module _ (p : OutboxRow → Bool) (f : OutboxRow → OutboxRow)
      (same_topic : (e : OutboxRow) → (f e).topic ≡ e.topic)
      (same_aggregate : (e : OutboxRow) → (f e).aggregate_id ≡ e.aggregate_id)
      (same_payload : (e : OutboxRow) → (f e).payload ≡ e.payload) where
    abbrev new : OutboxRow → OutboxRow
    new = update_row p f

    new_topic : (e : OutboxRow) → (new e).topic ≡ e.topic
    new_topic e = ground (arith, same_topic e)

    new_aggregate : (e : OutboxRow) → (new e).aggregate_id ≡ e.aggregate_id
    new_aggregate e = ground (arith, same_aggregate e)

    new_payload : (e : OutboxRow) → (new e).payload ≡ e.payload
    new_payload e = elim (Bool-cases (p e)) [ inl h ↦ rw h (same_payload e) | inr h ↦ rw h refl ]

    moved : (a e : OutboxRow) → e ≡ new a → IsTrue orders payments a → IsTrue orders payments e
    moved a e ea (r, o, t, mr, mo, e1, e2, e3, e4, e5) = (
      r,
      o,
      t,
      mr,
      mo,
      e1 ∙ sym (ap (λ (e : OutboxRow). e.aggregate_id) ea ∙ new_aggregate a),
      e2,
      e3,
      e4,
      ap (λ (e : OutboxRow). e.payload.event_data) ea
          ∙ (ap (λ (v : Envelope). v.event_data) (new_payload a) ∙ e5),
    )

    pub update_events-Sound : Sound x orders payments (update_where p f outbox)
    update_events-Sound = record {
      unique = i.unique;
      single = i.single;
      named = i.named;
      one_open = i.one_open;
      priced = i.priced;
      collected = i.collected;
      covered = i.covered;
      announced = λ r m e h.
          let (v, mv, e1, e2) = i.announced r m e h in
          (new v, update_where-In p f outbox v mv, new_topic v ∙ e1, new_aggregate v ∙ e2);
      truthful = λ e m h.
          let (a, ma, ea) = In-update_where p f outbox e m in
          moved a e ea
            (i.truthful a ma (sym (new_topic a) ∙ (sym (ap (λ (e : OutboxRow). e.topic) ea) ∙ h)));
    }

-- Nothing waits for a payment that is not there yet.
pub hold-Sound :
    (x : String) {orders : List OrderRow} {payments : List PaymentRow} {outbox : List OutboxRow}
    → Sound none orders payments outbox
    → Sound (some x) orders payments outbox
hold-Sound x i = record {
  unique = i.unique;
  single = i.single;
  named = i.named;
  one_open = i.one_open;
  priced = i.priced;
  collected = λ r m e h. i.collected r m e refl;
  covered = i.covered;
  announced = λ r m e h. i.announced r m e refl;
  truthful = i.truthful;
}

pub release-Sound :
    (p : PaymentRow) {orders : List OrderRow} {payments : List PaymentRow} {outbox : List OutboxRow}
    → Sound (some p.id) orders payments outbox
    → In p payments
    → HasPaidOrder orders p
    → IsAnnounced outbox p
    → Sound none orders payments outbox
release-Sound p {orders} {payments} {outbox} i m has said = record {
  unique = i.unique;
  single = i.single;
  named = i.named;
  one_open = i.one_open;
  priced = i.priced;
  collected = λ r mr e h. elim (Bool-cases (p.id == r.id)) [
    | inl t ↦ rw (i.unique r p mr m (sym ((==_iff p.id r.id).0 t))) has
    | inr t ↦ i.collected r mr e t
  ];
  covered = i.covered;
  announced = λ r mr e h. elim (Bool-cases (p.id == r.id)) [
    | inl t ↦ rw (i.unique r p mr m (sym ((==_iff p.id r.id).0 t))) said
    | inr t ↦ i.announced r mr e t
  ];
  truthful = i.truthful;
}
