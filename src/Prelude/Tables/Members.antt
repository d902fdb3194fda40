-- ===== src/Prelude/Tables/Members.antt =====
-- The rows of a table behind a statement.
use vpn_platform.Prelude.Lists.{find, select, update_where, sort_by, head_option, All, In}
use vpn_platform.Prelude.Tests.{if◌then◌else◌}
use vpn_platform.Prelude.Tables.{All-mono, All-sort_by, All-select, All-In}
use mathlib.Core.Path.{◌≡◌, refl}
use mathlib.Core.Logic.{◌⊎◌, inl, inr}
use mathlib.Core.Bool.{Bool, true}
use mathlib.Core.List.{List, [], ◌∷◌, ◌++◌}
use mathlib.Core.Option.{some}
use native.Mathlib.Omega.{arith}

module _ {A : Type 0} where
  -- What `UPDATE` makes of one row.
  abbrev pub update_row : (A → Bool) → (A → A) → A → A
  update_row p f a = if p a then f a else a

  pub In-append_one : (xs : List A) (x a : A) → In a (xs ++ x ∷ []) → In a xs ⊎ (a ≡ x)
  In-append_one [] x a (inl e) = inr e
  In-append_one [] x a (inr m) = absurd m
  In-append_one (y ∷ ys) x a (inl e) = inl (inl e)
  In-append_one (y ∷ ys) x a (inr m) = elim (In-append_one ys x a m) [
    | inl k ↦ inl (inr k)
    | inr e ↦ inr e
  ]

  pub In-append_left : (xs ys : List A) (a : A) → In a xs → In a (xs ++ ys)
  In-append_left [] ys a m = absurd m
  In-append_left (x ∷ xs) ys a (inl e) = inl e
  In-append_left (x ∷ xs) ys a (inr m) = inr (In-append_left xs ys a m)

  pub In-append_last : (xs : List A) (a : A) → In a (xs ++ a ∷ [])
  In-append_last [] a = inl refl
  In-append_last (x ∷ xs) a = inr (In-append_last xs a)

  pub In-update_where :
      (p : A → Bool) (f : A → A) (xs : List A) (b : A)
      → In b (update_where p f xs)
      → (a : A) × In a xs × (b ≡ update_row p f a)
  unfolding update_where
  In-update_where p f [] b m = absurd m
  In-update_where p f (x ∷ xs) b (inl e) = (x, inl refl, e)
  In-update_where p f (x ∷ xs) b (inr m) =
      let (a, n, e) = In-update_where p f xs b m in (a, inr n, e)

  pub update_where-In :
      (p : A → Bool) (f : A → A) (xs : List A) (a : A)
      → In a xs
      → In (update_row p f a) (update_where p f xs)
  unfolding update_where
  update_where-In p f [] a m = absurd m
  update_where-In p f (x ∷ xs) a (inl e) = inl (λ i. update_row p f (e i))
  update_where-In p f (x ∷ xs) a (inr m) = inr (update_where-In p f xs a m)

  All-In_self : (xs : List A) → All (λ a. In a xs) xs
  All-In_self [] = tt
  All-In_self (x ∷ xs) = (inl refl, All-mono _ _ xs (λ a m. inr m) (All-In_self xs))

  both : (P Q : A → Type 0) (xs : List A) → All P xs → All Q xs → All (λ a. P a × Q a) xs
  both P Q [] h k = tt
  both P Q (x ∷ xs) h k = ((h.0, k.0), both P Q xs h.1 k.1)

  selected : (p : A → Bool) (xs : List A) → All (λ a. p a ≡ true) (select p xs)
  unfolding select
  selected p [] = tt
  selected p (x ∷ xs) = ground (arith, selected p xs)

  head_All : (P : A → Type 0) (xs : List A) {a : A} → All P xs → head_option xs ≡ some a → P a
  head_All P [] h e = cc
  head_All P (x ∷ xs) {a} h e = ground (arith, h.0)

  pub All-select_In : (p : A → Bool) (xs : List A) → All (λ a. In a xs × (p a ≡ true)) (select p xs)
  All-select_In p xs =
      both _ _ (select p xs) (All-select p (λ a. In a xs) xs (All-In_self xs)) (selected p xs)

  pub In-select : (p : A → Bool) (xs : List A) (a : A) → In a (select p xs) → In a xs
  In-select p xs a m = (All-In _ (select p xs) a (All-select_In p xs) m).0

  -- `SELECT … WHERE p ORDER BY … LIMIT 1` gives a row of the table that passes `p`.
  pub In-head_select :
      (p : A → Bool) (before : A → A → Bool) (xs : List A) {a : A}
      → head_option (sort_by before (select p xs)) ≡ some a
      → In a xs × (p a ≡ true)
  In-head_select p before xs e =
      head_All (λ a. In a xs × (p a ≡ true)) _ (All-sort_by _ before _ (All-select_In p xs)) e

-- An update that the test does not see.
pub find-update_where :
    {A : Type 0} (p q : A → Bool) (f : A → A) (xs : List A) {r : A}
    → ((a : A) → p (f a) ≡ p a)
    → find p xs ≡ some r
    → find p (update_where q f xs) ≡ some (update_row q f r)
unfolding find update_where
find-update_where p q f [] same h = cc
find-update_where p q f (x ∷ xs) {r} same h =
    ground (arith, same x, find-update_where p q f xs {r = r} same)
