-- ===== src/Billing/Money/RoundTrip.antt =====
-- An amount is read back from its print.
use Prim.Native.Nat.{zero}
use vpn_platform.Prelude.{
  ℕ, suc, ◌+◌, ◌-◌, ◌*◌, ◌/◌, ◌%◌, ◌≤◌, ◌<◌, ◌≡◌, ◌≢◌, refl, arith, true, some, List, [], ◌∷◌, ◌++◌,
  ok,
}
use vpn_platform.Prelude.Int.{pos, two_63}
use vpn_platform.Prelude.Text.{in_range, is_digit, all_chars, byte_len}
use vpn_platform.Billing.Money.{
  digits_on, digits, print_int, print_two, format_minor, split_at, scan, as_positive, parse_int,
  parse_parts, parse_minor,
}

-- A digit in front of a text.
scan_digit :
    (bound d n : ℕ) (out : List ℕ)
    → d < 10
    → n ≤ bound
    → scan bound ((b'0' + d) ∷ out) n ≡ scan bound out (n * 10 + d)
unfolding scan is_digit in_range
scan_digit bound d n out small fits = ground arith

scan-digits_on :
    (bound fuel n : ℕ) (out : List ℕ)
    → n ≤ fuel
    → n ≤ bound
    → scan bound (digits_on fuel n out) 0 ≡ scan bound out n
unfolding digits_on
scan-digits_on bound zero n out enough fits = ground (arith, scan_digit bound (n % 10) 0 out)
scan-digits_on bound (suc fuel) n out enough fits = ground (
  arith,
  scan_digit bound n 0 out,
  scan_digit bound (n % 10) (n / 10) out,
  scan-digits_on bound fuel (n / 10) ((b'0' + n % 10) ∷ out),
)

all_chars-digits_on :
    (fuel n : ℕ) (out : List ℕ)
    → all_chars is_digit out ≡ true
    → all_chars is_digit (digits_on fuel n out) ≡ true
unfolding digits_on all_chars is_digit in_range
all_chars-digits_on zero n out h = ground arith
all_chars-digits_on (suc fuel) n out h =
    ground (arith, all_chars-digits_on fuel (n / 10) ((b'0' + n % 10) ∷ out))

digits_on-ne-nil : (fuel n : ℕ) (out : List ℕ) → digits_on fuel n out ≢ []
unfolding digits_on
digits_on-ne-nil zero n out h = cc
digits_on-ne-nil (suc fuel) n out h =
    ground (arith, digits_on-ne-nil fuel (n / 10) ((b'0' + n % 10) ∷ out))

-- A text of digits has no sign.
parse_int-digits :
    (cs : List ℕ)
    → all_chars is_digit cs ≡ true
    → cs ≢ []
    → parse_int cs ≡ as_positive (scan (two_63 - 1) cs 0)
unfolding parse_int all_chars is_digit in_range
parse_int-digits [] h k = absurd (k refl)
parse_int-digits (c ∷ cs) h k = ground arith

-- `strings.Split` at the one point.
split_at-digits : (cs : List ℕ) → all_chars is_digit cs ≡ true → split_at cs ≡ (cs, [])
unfolding split_at all_chars is_digit in_range
split_at-digits [] h = refl
split_at-digits (c ∷ cs) h = ground (arith, split_at-digits cs)

split_at-point :
    (cs ds : List ℕ)
    → all_chars is_digit cs ≡ true
    → all_chars is_digit ds ≡ true
    → split_at (cs ++ b'.' ∷ ds) ≡ (cs, ds ∷ [])
unfolding split_at all_chars is_digit in_range
split_at-point [] ds h k = rw (split_at-digits ds k) refl
split_at-point (c ∷ cs) ds h k = ground (arith, split_at-point cs ds)

byte_len-ne-zero : (cs : List ℕ) → cs ≢ [] → byte_len cs ≢ 0
unfolding byte_len
byte_len-ne-zero [] h e = h refl
byte_len-ne-zero (c ∷ cs) h e = ground arith

digits_of_two : (k : ℕ) → 10 ≤ k → k < 100 → digits k ≡ (b'0' + k / 10) ∷ (b'0' + k % 10) ∷ []
unfolding digits digits_on
digits_of_two zero h l = absurd (omega arith)
digits_of_two (suc zero) h l = absurd (omega arith)
digits_of_two (suc (suc k)) h l = ground arith

digits_of_one : (k : ℕ) → k < 10 → digits k ≡ (b'0' + k) ∷ []
unfolding digits digits_on
digits_of_one zero h = refl
digits_of_one (suc k) h = ground arith

print_two-small : (k : ℕ) → k < 100 → print_two (pos k) ≡ (b'0' + k / 10) ∷ (b'0' + k % 10) ∷ []
unfolding print_two
print_two-small k h = ground (arith, digits_of_one k, digits_of_two k)

parse_int-two :
    (a b : ℕ) → a < 10 → b < 10 → parse_int ((b'0' + a) ∷ (b'0' + b) ∷ []) ≡ some (pos (a * 10 + b))
unfolding parse_int scan is_digit in_range
parse_int-two a b h k = ground arith

all_chars-digits : (m : ℕ) → all_chars is_digit (digits m) ≡ true
unfolding digits all_chars
all_chars-digits m = all_chars-digits_on m m [] refl

digits-ne-nil : (m : ℕ) → digits m ≢ []
unfolding digits
digits-ne-nil m = digits_on-ne-nil m m []

parse_int-digits_of : (m : ℕ) → m < two_63 → parse_int (digits m) ≡ some (pos m)
unfolding digits scan
parse_int-digits_of m h =
    rw
      (
        parse_int-digits (digits_on m m []) (all_chars-digits m) (digits-ne-nil m),
        scan-digits_on (two_63 - 1) m m [] (omega arith) (omega (arith, h)),
      )
      (ground arith)

two_are_digits :
    (a b : ℕ) → a < 10 → b < 10 → all_chars is_digit ((b'0' + a) ∷ (b'0' + b) ∷ []) ≡ true
unfolding all_chars is_digit in_range
two_are_digits a b h k = ground arith

parse_parts-digits :
    (m k : ℕ)
    → m * 100 + k < two_63
    → k < 100
    → parse_parts (digits m, ((b'0' + k / 10) ∷ (b'0' + k % 10) ∷ []) ∷ []) ≡ ok (pos (m * 100 + k))
unfolding byte_len
parse_parts-digits m k h l = ground (
  arith,
  parse_int-digits_of m,
  parse_int-two (k / 10) (k % 10),
  byte_len-ne-zero (digits m) (digits-ne-nil m),
)

-- Every amount of the tables, from 0 to 2 ^ 63 - 1 minor units, that is printed for the provider is
-- read back as it was.
pub parse_minor-format_minor :
    (n : ℕ) → n < two_63 → parse_minor (format_minor (pos n)) ≡ ok (pos n)
unfolding parse_minor format_minor print_int
parse_minor-format_minor n h =
    rw
      (
        print_two-small (n % 100) (omega arith),
        split_at-point (digits (n / 100)) ((b'0' + n % 100 / 10) ∷ (b'0' + n % 100 % 10) ∷ [])
            (all_chars-digits (n / 100))
            (two_are_digits (n % 100 / 10) (n % 100 % 10) (omega arith) (omega arith)),
        parse_parts-digits (n / 100) (n % 100) (omega (arith, h)) (omega arith),
      )
      (ground arith)
