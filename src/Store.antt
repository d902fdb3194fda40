-- ===== src/Store.antt =====
-- A transaction on a database, as a function that may fail, for the stores of the services.
pub mod Keeps
pub mod Ends
use vpn_platform.Prelude.{ℕ, suc, ◌+◌, ◌-◌, Bool, true, false, Result, ok, err, Option, none, some}
use vpn_platform.Prelude.Int.{ℤ, pos, negsuc}

-- What a failing step has written so far stays in the transaction.
abbrev pub Tx : Type 0 → Type 0 → Type 0 → Type 0
Tx E D A = D → Result E A × D

module _ {E D : Type 0} where
  unfoldable pub bind : {A B : Type 0} → Result E A × D → (A → Tx E D B) → Result E B × D
  bind (ok a, db) f = f a db
  bind (err e, db) f = (err e, db)

  infixl 5 ◌>>=◌ ◌>>◌
  unfoldable pub ◌>>=◌ : {A B : Type 0} → Tx E D A → (A → Tx E D B) → Tx E D B
  ◌>>=◌ m f db = bind (m db) f

  unfoldable pub ◌>>◌ : {B : Type 0} → Tx E D (Unit {0}) → Tx E D B → Tx E D B
  m >> k = m >>= λ _. k

  unfoldable pub return : {A : Type 0} → A → Tx E D A
  return a db = (ok a, db)

  unfoldable pub throw : {A : Type 0} → E → Tx E D A
  throw e db = (err e, db)

  -- `if !test { return e }`.
  unfoldable pub ensure : Bool → E → Tx E D (Unit {0})
  ensure true e = return tt
  ensure false e = throw e

  -- A read.
  unfoldable pub get : {A : Type 0} → (D → A) → Tx E D A
  get f db = (ok (f db), db)

  -- A write.
  unfoldable pub put : (D → D) → Tx E D (Unit {0})
  put f db = (ok tt, f db)

  unfoldable pub handle : {A : Type 0} → Result E A × D → (E → Tx E D A) → Result E A × D
  handle (ok a, db) h = (ok a, db)
  handle (err e, db) h = h e db

  -- The handler of one error: what was written before it stays.
  unfoldable pub catch : {A : Type 0} → Tx E D A → (E → Tx E D A) → Tx E D A
  catch m h db = handle (m db) h

  -- BEGIN … COMMIT: an error rolls all back.
  unfoldable pub settle : {A : Type 0} → D → Result E A × D → Result E A × D
  settle before (ok a, db) = (ok a, db)
  settle before (err e, db) = (err e, before)

  unfoldable pub transact : {A : Type 0} → Tx E D A → Tx E D A
  transact m db = settle db (m db)

  unfoldable pub rows_or : {A : Type 0} → E → Option A → Tx E D A
  rows_or e none = throw e
  rows_or e (some a) = return a

  -- Go's `if` and the test of a row that a query may have missed.
  unfoldable pub branch : {A : Type 0} → Bool → Tx E D A → Tx E D A → Tx E D A
  branch true m k = m
  branch false m k = k

  unfoldable pub maybe : {A B : Type 0} → Option A → Tx E D B → (A → Tx E D B) → Tx E D B
  maybe none m k = m
  maybe (some a) m k = k a

  -- `if err != nil { return err }` behind a call.
  unfoldable pub fetched : {A : Type 0} → Result E A → Tx E D A
  fetched (ok a) = return a
  fetched (err e) = throw e

-- Opens all of them at once.
unfoldable pub combinators : Unit {0}
unfolding bind ◌>>=◌ ◌>>◌ return throw ensure get put handle catch settle transact rows_or branch
    maybe fetched
combinators = tt

-- `time.Time.Add` of a duration in nanoseconds.
abbrev pub add_duration : ℕ → ℤ → ℕ
add_duration t (pos d) = t + d
add_duration t (negsuc d) = t - suc d
