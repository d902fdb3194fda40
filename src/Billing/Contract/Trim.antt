-- ===== src/Billing/Contract/Trim.antt =====
-- A text that `strings.TrimSpace` has trimmed, in the checks of
-- services/subscription/internal/application/service.go.
use vpn_platform.Prelude.{
  ℕ, String, true, false, List, [], ◌∷◌, ◌++◌, ◌≡◌, refl, ap, ◌∙◌, arith, eqb, leb, Bool-cases, inl,
  inr, ◌⊎◌, length,
}
use mathlib.Core.List.{reverse, reverse-cons, reverse-append, reverse-reverse}
use vpn_platform.Prelude.Text.{codes, is_space, trim_left, trim_space, eq_codes, byte_len}
use vpn_platform.Subscription.Validation.{is_trimmed}

trim_left_idem : (xs : List ℕ) → trim_left (trim_left xs) ≡ trim_left xs
unfolding trim_left
trim_left_idem [] = refl
trim_left_idem (x ∷ xs) = elim (Bool-cases (is_space x)) [
  | inl h ↦ rw (h, trim_left_idem xs) refl
  | inr h ↦ rw (h, h) refl
]

trim_left-snoc :
    (xs : List ℕ) (c : ℕ) → is_space c ≡ false → trim_left (xs ++ c ∷ []) ≡ trim_left xs ++ c ∷ []
unfolding trim_left
trim_left-snoc [] c h = rw h refl
trim_left-snoc (x ∷ xs) c h = elim (Bool-cases (is_space x)) [
  | inl k ↦ rw k (trim_left-snoc xs c h)
  | inr k ↦ rw k refl
]

-- What is left is empty or starts with a character.
Starts : List ℕ → Type 0
Starts xs = (xs ≡ []) ⊎ ((c : ℕ) × (cs : List ℕ) × (xs ≡ c ∷ cs) × (is_space c ≡ false))

trim_left-Starts : (xs : List ℕ) → Starts (trim_left xs)
unfolding trim_left Starts
trim_left-Starts [] = inl refl
trim_left-Starts (x ∷ xs) = elim (Bool-cases (is_space x)) [
  | inl k ↦ rw k (trim_left-Starts xs)
  | inr k ↦ rw k (inr (x, xs, refl, k))
]

-- Trimming the end of a text leaves its start alone.
trimmed_start :
    (a : List ℕ)
    → Starts a
    → trim_left (reverse (trim_left (reverse a))) ≡ reverse (trim_left (reverse a))
unfolding Starts trim_left
trimmed_start a (inl e) = rw e refl
trimmed_start a (inr (c, cs, e, h)) =
    rw
      (
        e,
        reverse-cons c cs,
        trim_left-snoc (reverse cs) c h,
        reverse-append (trim_left (reverse cs)) (c ∷ []),
        h,
      )
      refl

trim_space_idem : (xs : List ℕ) → trim_space (trim_space xs) ≡ trim_space xs
unfolding trim_space
trim_space_idem xs =
    let a = trim_left xs in
    let d = trim_left (reverse a) in
    ap (λ ys. reverse (trim_left (reverse ys))) (trimmed_start a (trim_left-Starts xs))
    ∙ (ap (λ ys. reverse (trim_left ys)) (reverse-reverse d)
        ∙ ap reverse (trim_left_idem (reverse a)))

eq_codes_self : (xs : List ℕ) → eq_codes xs xs ≡ true
unfolding eq_codes
eq_codes_self [] = refl
eq_codes_self (x ∷ xs) = ground (arith, eq_codes_self xs)

pub trim_space-is_trimmed :
    (s : String) (raw : List ℕ) → codes s ≡ trim_space raw → is_trimmed s ≡ true
unfolding is_trimmed
trim_space-is_trimmed s raw e = rw (e, trim_space_idem raw) (eq_codes_self (trim_space raw))

-- A text with a character has a byte.
pub byte_len-positive : (cs : List ℕ) → leb 1 (length cs) ≡ true → eqb (byte_len cs) 0 ≡ false
unfolding byte_len
byte_len-positive [] h = ground arith
byte_len-positive (c ∷ cs) h = ground arith
