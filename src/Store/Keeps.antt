-- ===== src/Store/Keeps.antt =====
-- What a transaction keeps: a property of the database that holds after it if it held before, on
-- every path, the failing ones included.
use vpn_platform.Prelude.{◌≡◌, refl, Bool, true, false, Result, ok, err, Option, none, some}
use vpn_platform.Store.{
  Tx, bind, ◌>>=◌, ◌>>◌, return, throw, ensure, get, put, handle, catch, settle, transact, branch,
  maybe, rows_or, fetched,
}

pub record Keeps {E D : Type 0} (I : D → Type 0) {A : Type 0} (m : Tx E D A) : Type 0 where
  pub at : (db : D) → I db → I (m db).1

module _ {E D : Type 0} (I : D → Type 0) where
  pub bind_kept :
      {A B : Type 0} (r : Result E A × D) (f : A → Tx E D B)
      → I r.1
      → ((a : A) → Keeps I (f a))
      → I (bind r f).1
  unfolding bind
  bind_kept (ok a, db) f h k = (k a).at db h
  bind_kept (err e, db) f h k = h

  handle_kept :
      {A : Type 0} (r : Result E A × D) (f : E → Tx E D A)
      → I r.1
      → ((e : E) → Keeps I (f e))
      → I (handle r f).1
  unfolding handle
  handle_kept (ok a, db) f h k = h
  handle_kept (err e, db) f h k = (k e).at db h

  settle_kept :
      {A : Type 0} (before : D) (r : Result E A × D) → I before → I r.1 → I (settle before r).1
  unfolding settle
  settle_kept before (ok a, db) h k = k
  settle_kept before (err e, db) h k = h

  -- What is checked first may be assumed of the rest.
  pub ensure_kept :
      {B : Type 0} (b : Bool) (e : E) (k : Tx E D B) (db : D)
      → I db
      → (b ≡ true → I (k db).1)
      → I (bind (ensure b e db) (λ _. k)).1
  unfolding bind ensure return throw
  ensure_kept true e k db i h = h refl
  ensure_kept false e k db i h = i

  -- The same for a row that is found.
  pub maybe_kept :
      {A B : Type 0} (o : Option A) (m : Tx E D B) (k : A → Tx E D B) (db : D)
      → (o ≡ none → I (m db).1)
      → ((a : A) → o ≡ some a → I (k a db).1)
      → I (maybe o m k db).1
  unfolding maybe
  maybe_kept none m k db h g = h refl
  maybe_kept (some a) m k db h g = g a refl

  pub rows_or_kept :
      {A B : Type 0} (e : E) (o : Option A) (k : A → Tx E D B) (db : D)
      → I db
      → ((a : A) → o ≡ some a → I (k a db).1)
      → I (bind (rows_or e o db) k).1
  unfolding bind rows_or return throw
  rows_or_kept e none k db i h = i
  rows_or_kept e (some a) k db i h = h a refl

module _ {E D : Type 0} {I : D → Type 0} where
  pub >>=-Keeps :
      {A B : Type 0} {m : Tx E D A} {f : A → Tx E D B}
      → Keeps I m
      → ((a : A) → Keeps I (f a))
      → Keeps I (m >>= f)
  unfolding ◌>>=◌
  >>=-Keeps {m} {f} h k = record { at = λ db i. bind_kept I (m db) f (h.at db i) k }

  pub >>-Keeps :
      {B : Type 0} {m : Tx E D (Unit {0})} {k : Tx E D B} → Keeps I m → Keeps I k → Keeps I (m >> k)
  unfolding ◌>>◌
  >>-Keeps h k = >>=-Keeps h (λ _. k)

  pub return-Keeps : {A : Type 0} (a : A) → Keeps I (return {E = E} a)
  unfolding return
  return-Keeps a = record { at = λ db i. i }

  pub throw-Keeps : {A : Type 0} (e : E) → Keeps I (throw {D = D} {A = A} e)
  unfolding throw
  throw-Keeps e = record { at = λ db i. i }

  pub get-Keeps : {A : Type 0} (f : D → A) → Keeps I (get {E = E} f)
  unfolding get
  get-Keeps f = record { at = λ db i. i }

  pub ensure-Keeps : (b : Bool) (e : E) → Keeps I (ensure b e)
  unfolding ensure
  ensure-Keeps true e = return-Keeps tt
  ensure-Keeps false e = throw-Keeps e

  pub put-Keeps : (f : D → D) → ((db : D) → I db → I (f db)) → Keeps I (put {E = E} f)
  unfolding put
  put-Keeps f h = record { at = h }

  pub branch-Keeps :
      {A : Type 0} (b : Bool) {m k : Tx E D A} → Keeps I m → Keeps I k → Keeps I (branch b m k)
  unfolding branch
  branch-Keeps true hm hk = hm
  branch-Keeps false hm hk = hk

  pub maybe-Keeps :
      {A B : Type 0} (o : Option A) {m : Tx E D B} {k : A → Tx E D B}
      → Keeps I m
      → ((a : A) → Keeps I (k a))
      → Keeps I (maybe o m k)
  unfolding maybe
  maybe-Keeps none hm hk = hm
  maybe-Keeps (some a) hm hk = hk a

  pub rows_or-Keeps : {A : Type 0} (e : E) (o : Option A) → Keeps I (rows_or e o)
  unfolding rows_or
  rows_or-Keeps e none = throw-Keeps e
  rows_or-Keeps e (some a) = return-Keeps a

  pub fetched-Keeps : {A : Type 0} (r : Result E A) → Keeps I (fetched r)
  unfolding fetched
  fetched-Keeps (ok a) = return-Keeps a
  fetched-Keeps (err e) = throw-Keeps e

  pub catch-Keeps :
      {A : Type 0} {m : Tx E D A} {f : E → Tx E D A}
      → Keeps I m
      → ((e : E) → Keeps I (f e))
      → Keeps I (catch m f)
  unfolding catch
  catch-Keeps {m} {f} h k = record { at = λ db i. handle_kept I (m db) f (h.at db i) k }

  pub transact-Keeps : {A : Type 0} {m : Tx E D A} → Keeps I m → Keeps I (transact m)
  unfolding transact
  transact-Keeps {m} h = record { at = λ db i. settle_kept I db (m db) i (h.at db i) }

pub ruleset keeps_rules = (
  >>=-Keeps, >>-Keeps, return-Keeps, throw-Keeps, get-Keeps, ensure-Keeps, branch-Keeps,
  maybe-Keeps, rows_or-Keeps, fetched-Keeps, catch-Keeps, transact-Keeps,
)
