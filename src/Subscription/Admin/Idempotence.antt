-- ===== src/Subscription/Admin/Idempotence.antt =====
-- The replay of an administrative revocation.
use vpn_platform.Prelude.{
  ◌≡◌, refl, sym, true, false, not, String, Option, none, some, ok, List, find, arith, ==_self,
  ==_iff, ◌&&◌, ◌==◌, exists,
}
use vpn_platform.Prelude.Tables.{find-append_miss}
use vpn_platform.Subscription.Types.{
  AdminRevokeInput, AdminRevokeResult, idempotency_conflict, revoked,
}
use vpn_platform.Subscription.Schema.{Runtime, Database, AdminRevokeRow, SubscriptionRow, OutboxRow}
use vpn_platform.Subscription.Transaction.{
  Clock, transactions, return, ◌>>◌, ◌>>=◌, ensure, maybe, write_outbox, write_subscriptions,
}
use vpn_platform.Subscription.Transaction.Keeps.{Keeps, keeps_rules}
use vpn_platform.Store.Ends.{
  Ends, ensure-Ends, step-Gives, Gives, bind-Gives, settle-Gives, ensure-Gives, Gives-ok,
}
use vpn_platform.Subscription.Outbox.{Event, insert_outbox}
use vpn_platform.Subscription.Admin.{
  has_key, replay_revoke, request_row, record_revoke, perform_revoke, admin_revoke,
}

abbrev pub replayed : AdminRevokeResult → AdminRevokeResult
replayed r = record r { replay = true }

-- The key is stored with this request and this answer.
pub record Recorded (input : AdminRevokeInput) (r : AdminRevokeResult) (db : Database)
    : Type 0 where
  pub row : AdminRevokeRow
  pub found : find (has_key input.idempotency_key) db.admin_revokes ≡ some row
  pub same_request : row.request_sha256 ≡ input.request_sha256
  pub same_subscription : row.subscription_id ≡ input.subscription_id
  pub same_reason : row.reason_code ≡ input.reason_code
  pub answer_subscription : r.subscription_id ≡ row.subscription_id
  pub answer_status : r.status ≡ row.result_status
  pub answer_reason : r.reason_code ≡ row.reason_code

-- The key is not stored.
Unused : AdminRevokeInput → Database → Type 0
Unused input db = find (has_key input.idempotency_key) db.admin_revokes ≡ none

write_outbox-Unused :
    (input : AdminRevokeInput) (f : List OutboxRow → List OutboxRow)
    → Keeps (Unused input) (write_outbox f)
unfolding transactions Unused
write_outbox-Unused input f = record { at = λ db i. i }

write_subscriptions-Unused :
    (input : AdminRevokeInput) (f : List SubscriptionRow → List SubscriptionRow)
    → Keeps (Unused input) (write_subscriptions f)
unfolding transactions Unused
write_subscriptions-Unused input f = record { at = λ db i. i }

insert_outbox-Unused :
    ⦃rt : Runtime⦄ (input : AdminRevokeInput) (e : Event) (id : Option String) (c : Clock)
    → Keeps (Unused input) (insert_outbox e id c)
unfolding insert_outbox
insert_outbox-Unused input e id c =
    search (keeps_rules, write_outbox-Unused input, write_subscriptions-Unused input) depth 16

replay_revoke-Recorded :
    (row : AdminRevokeRow) (input : AdminRevokeInput) (db : Database)
    → find (has_key input.idempotency_key) db.admin_revokes ≡ some row
    → Gives (Recorded input) (replay_revoke row input db)
unfolding replay_revoke transactions
replay_revoke-Recorded row input db f =
    ensure-Gives (Recorded input)
      (row.request_sha256 == input.request_sha256
        && (row.subscription_id == input.subscription_id && row.reason_code == input.reason_code))
      idempotency_conflict
      (return (record {
        subscription_id = row.subscription_id;
        status = row.result_status;
        reason_code = row.reason_code;
        replay = true;
      }))
      db
      (λ same. record {
        row = row;
        found = f;
        same_request = ground (arith, same, ==_iff row.request_sha256 input.request_sha256);
        same_subscription = ground (arith, same, ==_iff row.subscription_id input.subscription_id);
        same_reason = ground (arith, same, ==_iff row.reason_code input.reason_code);
        answer_subscription = refl;
        answer_status = refl;
        answer_reason = refl;
      })

abbrev performed : AdminRevokeInput → AdminRevokeResult
performed input = record {
  subscription_id = input.subscription_id;
  status = revoked;
  reason_code = input.reason_code;
  replay = false;
}

module _ ⦃rt : Runtime⦄ (input : AdminRevokeInput) where
  record_revoke-Recorded :
      (c : Clock) (db : Database)
      → rt.uuid_text input.subscription_id ≡ input.subscription_id
      → Unused input db
      → Ends (Recorded input (performed input)) (record_revoke input c.now db)
  unfolding record_revoke transactions Unused
  record_revoke-Recorded c db k f =
      ensure-Ends _
        (not (exists (λ r. r.action_id == rt.uuid_text input.action_id) db.admin_revokes)) _ _ db
        (λ fresh. record {
          row = request_row input c.now;
          found = find-append_miss _ db.admin_revokes _ f (==_self _);
          same_request = refl;
          same_subscription = k;
          same_reason = refl;
          answer_subscription = sym k;
          answer_status = refl;
          answer_reason = refl;
        })

  record_revoke-Gives :
      (c : Clock) (db : Database)
      → rt.uuid_text input.subscription_id ≡ input.subscription_id
      → Unused input db
      → Gives (Recorded input) ((record_revoke input c.now >> return (performed input)) db)
  unfolding ◌>>◌ ◌>>=◌ return
  record_revoke-Gives c db k f =
      bind-Gives (Recorded input) (Recorded input (performed input)) (record_revoke input c.now db)
        _ (record_revoke-Recorded c db k f) (λ a d h. h)

  perform_revoke-Recorded :
      (id : Option String) (c : Clock) (db : Database)
      → rt.uuid_text input.subscription_id ≡ input.subscription_id
      → Unused input db
      → Gives (Recorded input) (perform_revoke input id c db)
  unfolding perform_revoke ◌>>◌
  perform_revoke-Recorded id c db k f =
      step-Gives (Recorded input) (Unused input) _ _ db (search keeps_rules) f
        (λ subscriptions d1 f1.
          step-Gives (Recorded input) (Unused input) _ _ d1 (search keeps_rules) f1 (λ s d2 f2.
            step-Gives (Recorded input) (Unused input) _ _ d2 (search keeps_rules) f2
              (λ open_now d3 f3.
                step-Gives (Recorded input) (Unused input) _ _ d3
                  (insert_outbox-Unused input _ id c) f3
                  (λ sent d4 f4.
                    step-Gives (Recorded input) (Unused input) _ _ d4
                      (write_subscriptions-Unused input _) f4
                      (λ written d5 f5. record_revoke-Gives c d5 k f5)))))

  admin_revoke-Recorded :
      (id : Option String) (c : Clock) (db : Database) (row : Option AdminRevokeRow)
      → rt.uuid_text input.subscription_id ≡ input.subscription_id
      → find (has_key input.idempotency_key) db.admin_revokes ≡ row
      → Gives (Recorded input) (admin_revoke input id c db)
  unfolding admin_revoke transactions Unused
  admin_revoke-Recorded id c db none k f =
      settle-Gives (Recorded input) db _ (rw (f, maybe) (perform_revoke-Recorded id c db k f))
  admin_revoke-Recorded id c db (some r) k f =
      settle-Gives (Recorded input) db _ (rw (f, maybe) (replay_revoke-Recorded r input db f))

  admin_revoke-again_Recorded :
      (id : Option String) (c : Clock) (db : Database) (r : AdminRevokeResult)
      → Recorded input r db
      → admin_revoke input id c db ≡ (ok (replayed r), db)
  unfolding admin_revoke transactions replay_revoke
  admin_revoke-again_Recorded id c db r k =
      let same : (k.row.request_sha256 == input.request_sha256
            && (k.row.subscription_id == input.subscription_id
                && k.row.reason_code == input.reason_code))
          ≡ true =
        ground (
          arith,
          k.same_request,
          k.same_subscription,
          k.same_reason,
          ==_self input.request_sha256,
          ==_self input.subscription_id,
          ==_self input.reason_code,
        ) in
      rw (k.found, maybe, same, ensure) ground
        (arith, k.answer_subscription, k.answer_status, k.answer_reason)

  -- Once a revocation, of a subscription named by its canonical UUID, has succeeded, the same
  -- request at any later time, with any new event identifier, gets the same answer, marked as a
  -- replay, and leaves the database as it is.
  pub admin_revoke-again :
      (id id2 : Option String) (c c2 : Clock) (db after : Database) (r : AdminRevokeResult)
      → rt.uuid_text input.subscription_id ≡ input.subscription_id
      → admin_revoke input id c db ≡ (ok r, after)
      → admin_revoke input id2 c2 after ≡ (ok (replayed r), after)
  admin_revoke-again id id2 c c2 db after r k e =
      admin_revoke-again_Recorded id2 c2 after r
        (Gives-ok (Recorded input) _ r after e (admin_revoke-Recorded id c db _ k refl))
