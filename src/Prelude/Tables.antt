-- ===== src/Prelude/Tables.antt =====
-- Laws of the statements on tables.
pub mod Members
use vpn_platform.Prelude.Lists.{find, select, update_where, exists, insert_by, sort_by, All, In}
use vpn_platform.Prelude.Tests.{Bool-cases}
use mathlib.Core.Path.{◌≡◌, refl, ◌∙◌, ap}
use mathlib.Core.Logic.{◌⊎◌, inl, inr}
use mathlib.Core.Bool.{Bool, true, false, ◌&&◌, ◌||◌}
use mathlib.Core.List.{List, [], ◌∷◌, ◌++◌}
use mathlib.Core.Option.{none, some}
use native.Mathlib.Omega.{arith}

module _ {A : Type 0} (p : A → Bool) where
  pub find-passes : (xs : List A) {a : A} → find p xs ≡ some a → (p a ≡ true) × In a xs
  unfolding find
  find-passes [] h = cc
  find-passes (x ∷ xs) {a} h = elim (Bool-cases (p x)) [
    | inl e ↦ (ground arith, inl (ground arith))
    | inr e ↦ let (t, m) = find-passes xs (ground arith) in (t, inr m)
  ]

  pub find-none : (xs : List A) → find p xs ≡ none → All (λ a. p a ≡ false) xs
  unfolding find
  find-none [] h = tt
  find-none (x ∷ xs) h = elim (Bool-cases (p x)) [
    | inl e ↦ ground arith
    | inr e ↦ (e, find-none xs (ground arith))
  ]

  pub find-append_miss :
      (xs : List A) (a : A) → find p xs ≡ none → p a ≡ true → find p (xs ++ a ∷ []) ≡ some a
  unfolding find
  find-append_miss [] a h e = ground arith
  find-append_miss (x ∷ xs) a h e = ground (arith, find-append_miss xs a)

  pub find-append_hit :
      (xs : List A) (a : A) {b : A} → find p xs ≡ some b → find p (xs ++ a ∷ []) ≡ some b
  unfolding find
  find-append_hit [] a h = cc
  find-append_hit (x ∷ xs) a {b} h = ground (arith, find-append_hit xs a {b = b})

  pub find-eq-none : (xs : List A) → All (λ a. p a ≡ false) xs → find p xs ≡ none
  unfolding find
  find-eq-none [] h = refl
  find-eq-none (x ∷ xs) h = rw h.0 (find-eq-none xs h.1)

  pub exists-insert_by :
      (before : A → A → Bool) (x : A) (ys : List A)
      → exists p (insert_by before x ys) ≡ (p x || exists p ys)
  unfolding exists insert_by
  exists-insert_by before x [] = refl
  exists-insert_by before x (y ∷ ys) = ground (arith, exists-insert_by before x ys)

  pub exists-sort_by :
      (before : A → A → Bool) (xs : List A) → exists p (sort_by before xs) ≡ exists p xs
  unfolding exists sort_by
  exists-sort_by before [] = refl
  exists-sort_by before (x ∷ xs) =
      exists-insert_by before x (sort_by before xs) ∙ ap (◌||◌ (p x)) (exists-sort_by before xs)

  pub exists-false : (xs : List A) → exists p xs ≡ false → All (λ a. p a ≡ false) xs
  unfolding exists
  exists-false [] h = tt
  exists-false (x ∷ xs) h = (ground arith, exists-false xs (ground arith))

  pub exists-eq-false : (xs : List A) → All (λ a. p a ≡ false) xs → exists p xs ≡ false
  unfolding exists
  exists-eq-false [] h = refl
  exists-eq-false (x ∷ xs) h = rw h.0 (exists-eq-false xs h.1)

  pub exists_of_In : (xs : List A) (a : A) → In a xs → p a ≡ true → exists p xs ≡ true
  unfolding exists
  exists_of_In [] a m h = absurd m
  exists_of_In (x ∷ xs) a (inl e) h = rw (← e, h)
  exists_of_In (x ∷ xs) a (inr m) h = ground (arith, exists_of_In xs a m h)

  pub exists-In : (xs : List A) → exists p xs ≡ true → (a : A) × In a xs × (p a ≡ true)
  unfolding exists
  exists-In [] h = cc
  exists-In (x ∷ xs) h = elim (Bool-cases (p x)) [
    | inl e ↦ (x, inl refl, e)
    | inr e ↦ let (a, m, t) = exists-In xs (ground arith) in (a, inr m, t)
  ]

  pub In-select : (xs : List A) (a : A) → In a (select p xs) → In a xs × (p a ≡ true)
  unfolding select
  In-select [] a m = absurd m
  In-select (x ∷ xs) a m = elim (Bool-cases (p x)) [
    | inl e ↦ elim (kept e m) [
      | inl h ↦ (inl h, rw h e)
      | inr k ↦ let (n, t) = In-select xs a k in (inr n, t)
    ]
    | inr e ↦ let (n, t) = In-select xs a (dropped e m) in (inr n, t)
  ]
    where
      kept : p x ≡ true → In a (select p (x ∷ xs)) → (a ≡ x) ⊎ In a (select p xs)
      kept e m = rw e at m

      dropped : p x ≡ false → In a (select p (x ∷ xs)) → In a (select p xs)
      dropped e m = rw e at m

  pub All-select {κ} : (P : A → Type κ) (xs : List A) → All P xs → All P (select p xs)
  unfolding select
  All-select P [] h = tt
  All-select P (x ∷ xs) h = ground (arith, All-select P xs h.1)

  pub select-passes : (xs : List A) → All (λ a. p a ≡ true) (select p xs)
  unfolding select
  select-passes [] = tt
  select-passes (x ∷ xs) = ground (arith, select-passes xs)

module _ {A : Type 0} (P : A → Type 0) where
  pub All-In : (xs : List A) (a : A) → All P xs → In a xs → P a
  All-In [] a h m = absurd m
  All-In (x ∷ xs) a h (inl e) = rw e h.0
  All-In (x ∷ xs) a h (inr m) = All-In xs a h.1 m

  pub All-append_one : (xs : List A) (a : A) → All P xs → P a → All P (xs ++ a ∷ [])
  All-append_one [] a h k = (k, tt)
  All-append_one (x ∷ xs) a h k = (h.0, All-append_one xs a h.1 k)

  pub All-insert_by :
      (before : A → A → Bool) (x : A) (ys : List A) → P x → All P ys → All P (insert_by before x ys)
  unfolding insert_by
  All-insert_by before x [] h k = (h, tt)
  All-insert_by before x (y ∷ ys) h k = elim (Bool-cases (before x y)) [
    | inl e ↦ rw e (h, (k.0, k.1))
    | inr e ↦ rw e (k.0, All-insert_by before x ys h k.1)
  ]

  pub All-sort_by : (before : A → A → Bool) (xs : List A) → All P xs → All P (sort_by before xs)
  unfolding sort_by
  All-sort_by before [] h = tt
  All-sort_by before (x ∷ xs) h =
      All-insert_by before x (sort_by before xs) h.0 (All-sort_by before xs h.1)

  pub All-update_where :
      (p : A → Bool) (f : A → A) (xs : List A)
      → ((a : A) → p a ≡ true → P a → P (f a))
      → All P xs
      → All P (update_where p f xs)
  unfolding update_where
  All-update_where p f [] keep h = tt
  All-update_where p f (x ∷ xs) keep h = elim (Bool-cases (p x)) [
    | inl e ↦ (rw e (keep x e h.0), All-update_where p f xs keep h.1)
    | inr e ↦ (rw e h.0, All-update_where p f xs keep h.1)
  ]

-- A weaker predicate.
pub All-mono :
    {A : Type 0} (P Q : A → Type 0) (xs : List A) → ((a : A) → P a → Q a) → All P xs → All Q xs
All-mono P Q [] imp h = tt
All-mono P Q (x ∷ xs) imp h = (imp x h.0, All-mono P Q xs imp h.1)

pub exists-select :
    {A : Type 0} (t p : A → Bool) (xs : List A)
    → exists t (select p xs) ≡ exists (λ a. p a && t a) xs
unfolding exists select
exists-select t p [] = refl
exists-select t p (x ∷ xs) = ground (arith, exists-select t p xs)

-- Each row comes before all behind it, by `le`.
abbrev pub IsOrdered : {A : Type 0} → (A → A → Type 0) → List A → Type 0
IsOrdered le [] = Unit
IsOrdered le (x ∷ xs) = All (le x) xs × IsOrdered le xs

module _ {A : Type 0} (le : A → A → Type 0) (before : A → A → Bool) where
  pub insert_by-IsOrdered :
      ((a b c : A) → le a b → le b c → le a c)
      → ((a b : A) → before a b ≡ true → le a b)
      → ((a b : A) → before a b ≡ false → le b a)
      → (x : A) (ys : List A) → IsOrdered le ys
      → IsOrdered le (insert_by before x ys)
  unfolding insert_by
  insert_by-IsOrdered trans yes' no' x [] h = (tt, tt)
  insert_by-IsOrdered trans yes' no' x (y ∷ ys) h = elim (Bool-cases (before x y)) [
    | inl e ↦ rw e (
      (yes' x y e, All-mono (le y) (le x) ys (λ a k. trans x y a (yes' x y e) k) h.0),
      (h.0, h.1),
    )
    | inr e ↦ rw e (
      All-insert_by (le y) before x ys (no' x y e) h.0,
      insert_by-IsOrdered trans yes' no' x ys h.1,
    )
  ]

  pub sort_by-IsOrdered :
      ((a b c : A) → le a b → le b c → le a c)
      → ((a b : A) → before a b ≡ true → le a b)
      → ((a b : A) → before a b ≡ false → le b a)
      → (xs : List A) → IsOrdered le (sort_by before xs)
  unfolding sort_by
  sort_by-IsOrdered trans yes' no' [] = tt
  sort_by-IsOrdered trans yes' no' (x ∷ xs) =
      insert_by-IsOrdered trans yes' no' x (sort_by before xs) (sort_by-IsOrdered trans yes' no' xs)
