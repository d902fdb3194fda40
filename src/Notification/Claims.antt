-- ===== src/Notification/Claims.antt =====
-- `finishClaim` of services/notification/internal/postgres/store.go on a claim that it has ended.
use vpn_platform.Prelude.{
  ℕ, String, false, Option, none, some, ◌≡◌, refl, ok, err, arith, ◌∷◌, [], List, find,
  update_where, Bool-cases, inl, inr,
}
use vpn_platform.Store.{transact, ◌>>=◌, bind, get, put, settle, maybe, throw}
use vpn_platform.Store.Ends.{Gives, settle-Gives, Gives-ok}
use vpn_platform.Notification.Schema.{JobRow, Database, event_conflict}
use vpn_platform.Notification.Jobs.{write_jobs}
use vpn_platform.Notification.Leases.{
  Finish, complete, try_again, give_up, suppress, finished, in_claim, finish_found, finish_claim,
}

module _ (id claim_id : String) where
  abbrev Ended : Database → Type 0
  Ended db = find (in_claim id claim_id) db.jobs ≡ none

  finished_out :
      (f : Finish) (now : ℕ) (j : JobRow) → in_claim id claim_id (finished f now j) ≡ false
  finished_out complete now j = ground arith
  finished_out (try_again d) now j = ground arith
  finished_out (give_up r) now j = ground arith
  finished_out (suppress r) now j = ground arith

  update_out :
      (f : Finish) (now : ℕ) (jobs : List JobRow)
      → find (in_claim id claim_id) (update_where (in_claim id claim_id) (finished f now) jobs)
        ≡ none
  unfolding find update_where
  update_out f now [] = refl
  update_out f now (j ∷ jobs) = elim (Bool-cases (in_claim id claim_id j)) [
    | inl e ↦ rw (e, finished_out f now j) (update_out f now jobs)
    | inr e ↦ rw (e, e) (update_out f now jobs)
  ]

  looked_up-Ended :
      (f : Finish) (now : ℕ) (db : Database) (o : Option JobRow)
      → Gives (λ a. Ended) (maybe o (throw event_conflict) (finish_found id claim_id f now) db)
  unfolding maybe throw finish_found write_jobs ◌>>=◌ bind get put
  looked_up-Ended f now db none = tt
  looked_up-Ended f now db (some j) = update_out _ now db.jobs

  finish_claim-Ended :
      (f : Finish) (now : ℕ) (db : Database)
      → Gives (λ a. Ended) (finish_claim id claim_id f now db)
  unfolding finish_claim transact ◌>>=◌ bind get
  finish_claim-Ended f now db = settle-Gives (λ a. Ended) db _ (looked_up-Ended f now db _)

  Ended-again :
      (f : Finish) (now : ℕ) (db : Database)
      → Ended db
      → finish_claim id claim_id f now db ≡ (err event_conflict, db)
  unfolding finish_claim transact settle ◌>>=◌ bind get maybe throw
  Ended-again f now db e = rw e refl

-- A claim ends once: when it has been completed, put back for a retry, failed or suppressed, any further
-- end of it is a conflict and leaves the database as it is.
pub finish_claim-once :
    (id claim_id : String) (f g : Finish) (now later : ℕ) (db after : Database)
    → finish_claim id claim_id f now db ≡ (ok tt, after)
    → finish_claim id claim_id g later after ≡ (err event_conflict, after)
finish_claim-once id claim_id f g now later db after e =
    Ended-again id claim_id g later after
      (Gives-ok (λ a. Ended id claim_id) _ tt after e (finish_claim-Ended id claim_id f now db))
