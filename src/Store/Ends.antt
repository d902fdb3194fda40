-- ===== src/Store/Ends.antt =====
-- What holds of the database after a transaction that succeeds.
use vpn_platform.Prelude.{◌≡◌, refl, sym, ◌∙◌, subst, Bool, true, false, Result, ok, err}
use vpn_platform.Store.{
  Tx, bind, ensure, settle, transact, return, throw, ◌>>◌, ◌>>=◌, branch, fetched,
}
use vpn_platform.Store.Keeps.{Keeps}

-- The condition on the outcome of a transaction: a failure promises nothing.
abbrev pub Ends : {E D : Type 0} → (J : D → Type 0) → {A : Type 0} → Result E A × D → Type 0
Ends J (ok a, db) = J db
Ends J (err e, db) = Unit {0}

module _ {E D : Type 0} (J : D → Type 0) where
  pub keeps_Ends : {A : Type 0} (r : Result E A × D) → J r.1 → Ends J r
  keeps_Ends (ok a, db) h = h
  keeps_Ends (err e, db) h = tt

  pub bind-Ends :
      {A B : Type 0} (r : Result E A × D) (f : A → Tx E D B)
      → Ends J r
      → ((a : A) → Keeps J (f a))
      → Ends J (bind r f)
  unfolding bind
  bind-Ends (ok a, db) f h k = keeps_Ends (f a db) ((k a).at db h)
  bind-Ends (err e, db) f h k = tt

  pub settle-Ends :
      {A : Type 0} (before : D) (r : Result E A × D) → Ends J r → Ends J (settle before r)
  unfolding settle
  settle-Ends before (ok a, db) h = h
  settle-Ends before (err e, db) h = tt

  pub transact-Ends :
      {A B : Type 0} (m : Tx E D A) (f : A → Tx E D B) (db : D)
      → Ends J (m db)
      → ((a : A) → Keeps J (f a))
      → Ends J (transact (m >>= f) db)
  unfolding transact ◌>>=◌
  transact-Ends m f db h k = settle-Ends db (bind (m db) f) (bind-Ends (m db) f h k)

  -- What is checked first may be assumed of the rest.
  pub ensure-Ends :
      {A : Type 0} (b : Bool) (e : E) (k : Tx E D A) (db : D)
      → (b ≡ true → Ends J (k db))
      → Ends J ((ensure b e >> k) db)
  unfolding ensure throw return ◌>>◌ ◌>>=◌ bind
  ensure-Ends true e k db h = h refl
  ensure-Ends false e k db h = tt

  pub Ends-ok :
      {A : Type 0} (r : Result E A × D) (a : A) (after : D) → r ≡ (ok a, after) → Ends J r → J after
  Ends-ok r a after e h = subst (λ x. Ends J x) e h

-- The same with what the transaction returns.
abbrev pub Gives : {E D : Type 0} → {A : Type 0} → (P : A → D → Type 0) → Result E A × D → Type 0
Gives P (ok a, db) = P a db
Gives P (err e, db) = Unit {0}

module _ {E D : Type 0} {B : Type 0} (P : B → D → Type 0) where
  pub bind-Gives :
      {A : Type 0} (J : D → Type 0) (r : Result E A × D) (f : A → Tx E D B)
      → Ends J r
      → ((a : A) (db : D) → J db → Gives P (f a db))
      → Gives P (bind r f)
  unfolding bind
  bind-Gives J (ok a, db) f h k = k a db h
  bind-Gives J (err e, db) f h k = tt

  -- A step that keeps a condition hands it to the rest.
  pub step-Gives :
      {A : Type 0} (J : D → Type 0) (m : Tx E D A) (f : A → Tx E D B) (db : D)
      → Keeps J m
      → J db
      → ((a : A) (db : D) → J db → Gives P (f a db))
      → Gives P ((m >>= f) db)
  unfolding ◌>>=◌
  step-Gives J m f db h i k = bind-Gives J (m db) f (keeps_Ends J (m db) (h.at db i)) k

  pub settle-Gives : (before : D) (r : Result E B × D) → Gives P r → Gives P (settle before r)
  unfolding settle
  settle-Gives before (ok a, db) h = h
  settle-Gives before (err e, db) h = tt

  pub ensure-Gives :
      (b : Bool) (e : E) (k : Tx E D B) (db : D)
      → (b ≡ true → Gives P (k db))
      → Gives P (bind (ensure b e db) (λ _. k))
  unfolding ensure throw return bind
  ensure-Gives true e k db h = h refl
  ensure-Gives false e k db h = tt

  pub Gives-ok :
      (r : Result E B × D) (b : B) (after : D) → r ≡ (ok b, after) → Gives P r → P b after
  Gives-ok r b after e h = subst (λ x. Gives P x) e h

  -- Sequences, where each part may count on what the part before it gives.
  pub chain-Gives :
      {A : Type 0} (Q : A → D → Type 0) (r : Result E A × D) (f : A → Tx E D B)
      → Gives Q r
      → ((a : A) (db : D) → Q a db → Gives P (f a db))
      → Gives P (bind r f)
  unfolding bind
  chain-Gives Q (ok a, db) f h k = k a db h
  chain-Gives Q (err e, db) f h k = tt

  pub branch-Gives :
      (b : Bool) (m k : Tx E D B) (db : D)
      → (b ≡ true → Gives P (m db))
      → (b ≡ false → Gives P (k db))
      → Gives P (branch b m k db)
  unfolding branch
  branch-Gives true m k db h g = h refl
  branch-Gives false m k db h g = g refl

  pub fetched-Gives :
      {A : Type 0} (r : Result E A) (f : A → Tx E D B) (db : D)
      → ((a : A) → r ≡ ok a → Gives P (f a db))
      → Gives P (bind (fetched r db) f)
  unfolding bind fetched return throw
  fetched-Gives (ok a) f db h = h a refl
  fetched-Gives (err e) f db h = tt

  -- A read that succeeds leaves the database alone.
  pub read-Gives :
      {A : Type 0} (m : Tx E D A) (f : A → Tx E D B) (db : D)
      → Keeps (λ d. d ≡ db) m
      → ((a : A) → m db ≡ (ok a, db) → Gives P (f a db))
      → Gives P (bind (m db) f)
  unfolding bind
  read-Gives {A} m f db k h = go (m db) refl (k.at db refl)
    where
      go : (r : Result E A × D) → m db ≡ r → r.1 ≡ db → Gives P (bind r f)
      go (ok a, d) e same =
          subst (λ d. Gives P (f a d)) (sym same) (h a (e ∙ (λ i. (ok a, same i))))
      go (err x, d) e same = tt

module _ {E D : Type 0} (J : D → Type 0) where
  pub Keeps-Gives : {A : Type 0} {m : Tx E D A} (db : D) → Keeps J m → J db → Gives (λ a. J) (m db)
  Keeps-Gives {m} db k h = kept (m db) (k.at db h)
    where
      kept : {A : Type 0} (r : Result E A × D) → J r.1 → Gives (λ a. J) r
      kept (ok a, db) h = h
      kept (err e, db) h = tt

  pub check-Gives : (b : Bool) (e : E) (db : D) → (b ≡ true → J db) → Gives (λ a. J) (ensure b e db)
  unfolding ensure return throw
  check-Gives true e db h = h refl
  check-Gives false e db h = tt

  -- A transaction that fails leaves the database as it was.
  pub transact_gives :
      {A : Type 0} (m : Tx E D A) (db : D) → J db → Gives (λ a. J) (m db) → J (transact m db).1
  unfolding transact settle
  transact_gives m db h g = settled (m db) g
    where
      settled : {A : Type 0} (r : Result E A × D) → Gives (λ a. J) r → J (settle db r).1
      settled (ok a, after) g = g
      settled (err e, after) g = h
