-- ===== src/Billing/Orders/Replay.antt =====
-- The replay of an order with its idempotency key.
use vpn_platform.Prelude.{
  ℕ, String, Bool, false, Option, none, some, ◌≡◌, refl, ok, arith, exists, ◌++◌, ◌∷◌, [], ==_self,
}
use vpn_platform.Prelude.Tables.{find-append_miss, find-eq-none, exists-false}
use vpn_platform.Store.Ends.{
  Gives, ensure-Gives, chain-Gives, bind-Gives, read-Gives, keeps_Ends, settle-Gives, fetched-Gives,
  Gives-ok,
}
use vpn_platform.Billing.Types.{Order, CreateOrderInput}
use vpn_platform.Billing.Schema.{
  Database, IdempotencyRow, Operation, create_order as order_operation,
}
use vpn_platform.Billing.Transaction.{
  bind, ◌>>=◌, ◌>>◌, get, put, return, throw, maybe, transact, transactions, random_uuid,
  write_idempotency_keys,
}
use vpn_platform.Billing.Transaction.Keeps.{Keeps, keeps_rules}
use vpn_platform.Billing.Orders.{
  get_order, has_key, lookup_idempotency, store_idempotency, order_key, place_order, finish_order,
  replay_order, create_order, find_order_replay,
}
use vpn_platform.Billing.Service.{Config, Outside, hash_parts, place_new_order, order_call}

-- The reads leave the database alone.
module _ (db : Database) where
  get_order-Reads : (user_id id : String) → Keeps (λ d. d ≡ db) (get_order user_id id)
  unfolding get_order
  get_order-Reads user_id id = search keeps_rules depth 12

  lookup-Reads :
      (subject : String) (op : Operation) (key hash : String)
      → Keeps (λ d. d ≡ db) (lookup_idempotency subject op key hash)
  unfolding lookup_idempotency
  lookup-Reads subject op key hash = search keeps_rules depth 12

  find_order_replay-Reads :
      (user_id key hash : String) → Keeps (λ d. d ≡ db) (find_order_replay user_id key hash)
  unfolding find_order_replay
  find_order_replay-Reads user_id key hash =
      search (keeps_rules, lookup-Reads, get_order-Reads) depth 12

-- The replay gives the order.
abbrev Replays : (user_id key hash : String) → Order × Bool → Database → Type 0
Replays user_id key hash r db = find_order_replay user_id key hash db ≡ (ok (some r.0), db)

-- A key that leads to an order.
found-Replays :
    (user_id key hash id : String) (o : Order) (new : Bool) (db : Database)
    → lookup_idempotency user_id order_operation key hash db ≡ (ok (some id), db)
    → get_order user_id id db ≡ (ok o, db)
    → Replays user_id key hash (o, new) db
unfolding find_order_replay ◌>>=◌ bind return maybe
found-Replays user_id key hash id o new db e h = rw (e, h) refl

module _ (input : CreateOrderInput) where
  abbrev Keyed : String → Database → Type 0
  Keyed id db =
      lookup_idempotency input.user_id order_operation input.idempotency_key input.request_hash db
      ≡ (ok (some id), db)

  abbrev has_this : IdempotencyRow → Bool
  has_this = has_key input.user_id order_operation input.idempotency_key

  stored-Keyed :
      (id : String) (db : Database)
      → exists has_this db.idempotency_keys ≡ false
      → Keyed id (record db { idempotency_keys = db.idempotency_keys ++ order_key input id ∷ [] })
  unfolding lookup_idempotency transactions
  stored-Keyed id db fresh =
      rw
        (
          find-append_miss has_this db.idempotency_keys (order_key input id)
              (find-eq-none has_this db.idempotency_keys
                (exists-false has_this db.idempotency_keys fresh))
              (ground (arith, ==_self input.user_id, ==_self input.idempotency_key)),
          ==_self input.request_hash,
        )
        refl

  store_idempotency-Keyed :
      (what id : String) (db : Database)
      → Gives (λ a. Keyed id) (store_idempotency what (order_key input id) db)
  unfolding store_idempotency ◌>>=◌ ◌>>◌ bind get put write_idempotency_keys
  store_idempotency-Keyed what id db =
      ensure-Gives (λ a. Keyed id) _ _ _ db
        (λ c. ensure-Gives (λ a. Keyed id) _ _ _ db (λ e. stored-Keyed id db (ground arith)))

  abbrev P : Order × Bool → Database → Type 0
  P = Replays input.user_id input.idempotency_key input.request_hash

  finish_order-Replays :
      (placed : String × Bool) (db : Database) → Gives P (finish_order input placed db)
  unfolding finish_order ◌>>=◌ ◌>>◌ return
  finish_order-Replays placed db =
      chain-Gives P (λ a. Keyed placed.0) _ _
        (store_idempotency-Keyed "store order idempotency" placed.0 db)
        (λ a after k. read-Gives P _ _ after (get_order-Reads after input.user_id placed.0) (λ o e.
          found-Replays input.user_id input.idempotency_key input.request_hash placed.0 o placed.1
            after k e))

  answer_order-Replays :
      (id : String) (now : ℕ) (db : Database) (k : Option String)
      → lookup_idempotency input.user_id order_operation input.idempotency_key input.request_hash db
        ≡ (ok k, db)
      → Gives P (
          maybe k (place_order input id now >>= finish_order input) (replay_order input.user_id) db)
  unfolding maybe replay_order ◌>>=◌ return
  answer_order-Replays id now db none e =
      bind-Gives P (λ d. Unit {0}) (place_order input id now db) _
        (keeps_Ends (λ d. Unit {0}) (place_order input id now db) tt)
        (λ placed after h. finish_order-Replays placed after)
  answer_order-Replays id now db (some known) e =
      read-Gives P _ _ db (get_order-Reads db input.user_id known) (λ o h.
        found-Replays input.user_id input.idempotency_key input.request_hash known o false db e h)

  pub create_order-Replays :
      (uuid : Option String) (now : ℕ) (db : Database) → Gives P (create_order input uuid now db)
  unfolding create_order random_uuid throw return transact ◌>>=◌ bind
  create_order-Replays none now db = tt
  create_order-Replays (some id) now db = settle-Gives P db _ (
      read-Gives P _ _ db
        (lookup-Reads db input.user_id order_operation input.idempotency_key input.request_hash)
        (answer_order-Replays id now db))

module _ (cfg : Config) (out : Outside) (user_id plan_id region terms key : String) where
  abbrev hash : String
  hash = hash_parts cfg out (user_id ∷ plan_id ∷ region ∷ terms ∷ [])

  place_new_order-Replays :
      (uuid : Option String) (now : ℕ) (db : Database)
      → Gives
          (Replays user_id key hash)
          (place_new_order cfg out user_id plan_id region terms key uuid now db)
  unfolding place_new_order ◌>>=◌ ◌>>◌
  place_new_order-Replays uuid now db =
      fetched-Gives (Replays user_id key hash) (out.verify_active_with_consent user_id terms) _ db
        (λ a h.
          fetched-Gives (Replays user_id key hash) (out.get_plan plan_id region) _ db
            (λ snapshot k. create_order-Replays _ uuid now db))

  order_call-Replays :
      (uuid : Option String) (now : ℕ) (db : Database)
      → Gives
          (Replays user_id key hash)
          (order_call cfg out user_id plan_id region terms key uuid now db)
  unfolding order_call ◌>>=◌ maybe return
  order_call-Replays uuid now db =
      read-Gives (Replays user_id key hash) _ _ db (find_order_replay-Reads db user_id key hash)
        answered
    where
      answered :
          (k : Option Order)
          → find_order_replay user_id key hash db ≡ (ok k, db)
          → Gives (Replays user_id key hash) (
              maybe k
                (place_new_order cfg out user_id plan_id region terms key uuid now)
                (λ order. return (order, false))
                db)
      answered none e = place_new_order-Replays uuid now db
      answered (some o) e = e

-- Once a request for an order has been answered, the same request (the same user, plan, region, terms
-- and idempotency key) is answered with the same order, marked as known, and leaves the database as it
-- is, whatever the other services answer by then, as long as the hash is the same function.
pub order_call-again :
    (cfg : Config) (out out2 : Outside) (user_id plan_id region terms key : String)
    (uuid uuid2 : Option String) (now now2 : ℕ) (order : Order) (new : Bool) (db after : Database)
    → out2.sha256_hex ≡ out.sha256_hex
    → order_call cfg out user_id plan_id region terms key uuid now db ≡ (ok (order, new), after)
    → order_call cfg out2 user_id plan_id region terms key uuid2 now2 after
      ≡ (ok (order, false), after)
unfolding order_call hash_parts transactions
order_call-again cfg out out2 user_id plan_id region terms key uuid uuid2 now now2 order new db
      after same e =
    rw
      (
        same,
        Gives-ok (Replays user_id key (hash cfg out user_id plan_id region terms key)) _
            (order, new) after e
            (order_call-Replays cfg out user_id plan_id region terms key uuid now db),
      )
      refl
