-- ===== src/Billing/Contract/Identifiers.antt =====
-- internal/platform/cryptoutil/random.go: the form of `RandomUUID`, which the pattern of
-- services/subscription/internal/application/service.go takes.
use vpn_platform.Prelude.{ℕ, zero, suc, String, Bool, true, ◌||◌, List, [], ◌∷◌, ◌≡◌, arith, eqb}
use vpn_platform.Prelude.Text.{codes, in_range, is_hex, is_lower_hex, match_classes, times}
use vpn_platform.Subscription.Validation.{uuid_pattern, valid_uuid}

abbrev dash : ℕ → Bool
dash c = eqb c b'-'

-- `value[8] & 0x3f | 0x80` starts with one of these digits.
abbrev variant : ℕ → Bool
variant c = eqb c b'8' || (eqb c b'9' || (eqb c b'a' || eqb c b'b'))

-- `%08x-%04x-%04x-%04x-%012x` of sixteen bytes, of which the seventh is `0x4.` and the ninth `0x8.` to
-- `0xb.`.
abbrev pub random_pattern : List (ℕ → Bool)
random_pattern = times 8 is_lower_hex (
    dash
    ∷ times 4 is_lower_hex (
        dash
        ∷ (λ c. eqb c b'4')
        ∷ times 3 is_lower_hex
            (dash ∷ variant ∷ times 3 is_lower_hex (dash ∷ times 12 is_lower_hex []))))

unfoldable pub random_form : String → Bool
random_form s = match_classes random_pattern (codes s)

-- Each class of one expression lies in the class of the other.
Implied : List (ℕ → Bool) → List (ℕ → Bool) → Type 0
Implied [] [] = Unit {0}
Implied [] (q ∷ qs) = ⊥
Implied (p ∷ ps) [] = ⊥
Implied (p ∷ ps) (q ∷ qs) = ((c : ℕ) → p c ≡ true → q c ≡ true) × Implied ps qs

match_classes-Implied :
    (ps qs : List (ℕ → Bool)) (cs : List ℕ)
    → Implied ps qs
    → match_classes ps cs ≡ true
    → match_classes qs cs ≡ true
unfolding match_classes Implied
match_classes-Implied [] [] cs i h = h
match_classes-Implied [] (q ∷ qs) cs i h = absurd i
match_classes-Implied (p ∷ ps) [] cs i h = absurd i
match_classes-Implied (p ∷ ps) (q ∷ qs) [] i h = cc
match_classes-Implied (p ∷ ps) (q ∷ qs) (c ∷ cs) i h =
    ground (arith, i.0 c, match_classes-Implied ps qs cs i.1)

times-Implied :
    (n : ℕ) (p q : ℕ → Bool) (ps qs : List (ℕ → Bool))
    → ((c : ℕ) → p c ≡ true → q c ≡ true)
    → Implied ps qs
    → Implied (times n p ps) (times n q qs)
unfolding times Implied
times-Implied zero p q ps qs h i = i
times-Implied (suc n) p q ps qs h i = (h, times-Implied n p q ps qs h i)

lower_hex : (c : ℕ) → is_lower_hex c ≡ true → is_hex c ≡ true
unfolding is_lower_hex is_hex
lower_hex c h = ground arith

hexes :
    (n : ℕ) (ps qs : List (ℕ → Bool))
    → Implied ps qs
    → Implied (times n is_lower_hex ps) (times n is_hex qs)
hexes n ps qs i = times-Implied n is_lower_hex is_hex ps qs lower_hex i

random-Implied : Implied random_pattern uuid_pattern
unfolding Implied in_range
random-Implied = hexes 8 _ _ (
  (λ c h. h),
  hexes 4 _ _ (
    (λ c h. h),
    (
      (λ c h. ground arith),
      hexes 3 _ _
          ((λ c h. h), ((λ c h. ground arith), hexes 3 _ _ ((λ c h. h), hexes 12 [] [] tt))),
    ),
  ),
)

pub random_form-valid_uuid : (s : String) → random_form s ≡ true → valid_uuid s ≡ true
unfolding random_form valid_uuid
random_form-valid_uuid s h =
    match_classes-Implied random_pattern uuid_pattern (codes s) random-Implied h
