-- ===== src/Billing/Money.antt =====
-- `formatMinor` and `parseMinor` of services/billing/internal/yookassa/client.go, and the Go functions
-- below them, on texts by their characters: `%d`, `%02d`, `strings.Split` and `strconv.ParseInt`.
pub mod RoundTrip
use Prim.Native.Nat.{zero}
use vpn_platform.Prelude.{
  ℕ, suc, ◌+◌, ◌-◌, ◌*◌, ◌/◌, ◌%◌, Bool, true, false, not, ◌&&◌, ◌||◌, Option, none, some, List, [],
  ◌∷◌, ◌++◌, ltb, leb, eqb, if◌then◌else◌, Result, ok, err, arith, ◌<◌,
}
use vpn_platform.Prelude.Int.{ℤ, pos, negsuc, two_63, negate, quotient, remainder}
use vpn_platform.Prelude.Text.{is_digit, byte_len}
use vpn_platform.Billing.Types.{Error, internal}

-- The decimal digits of a number, in front of `out`; a number has at most as many digits as `fuel`,
-- which is the number itself.
unfoldable pub digits_on : ℕ → ℕ → List ℕ → List ℕ
digits_on zero n out = (b'0' + n % 10) ∷ out
digits_on (suc fuel) n out =
    let rest = digits_on fuel (n / 10) ((b'0' + n % 10) ∷ out) in
    if ltb n 10 then (b'0' + n) ∷ out else rest

-- `%d`.
unfoldable pub digits : ℕ → List ℕ
digits n = digits_on n n []

unfoldable pub print_int : ℤ → List ℕ
print_int (pos n) = digits n
print_int (negsuc n) = b'-' ∷ digits (suc n)

-- `%02d`.
unfoldable pub print_two : ℤ → List ℕ
print_two (pos n) = if ltb n 10 then b'0' ∷ digits n else digits n
print_two (negsuc n) = b'-' ∷ digits (suc n)

unfoldable pub format_minor : ℤ → List ℕ
format_minor value = print_int (quotient value 100) ++ b'.' ∷ print_two (remainder value 100)

-- `strings.Split(value, ".")`: the part before each point, and the last.
unfoldable pub split_at : List ℕ → List ℕ × List (List ℕ)
split_at [] = ([], [])
split_at (c ∷ cs) =
    let (part, parts) = split_at cs in if eqb c b'.' then ([], part ∷ parts) else (c ∷ part, parts)

-- `strconv.ParseUint`'s loop: the number that the digits spell behind `n`, unless one is none or the
-- number passes `bound`.
unfoldable pub scan : ℕ → List ℕ → ℕ → Option ℕ
scan bound [] n = if leb n bound then some n else none
scan bound (c ∷ cs) n =
    let rest = scan bound cs (n * 10 + (c - b'0')) in
    if is_digit c && leb n bound then rest else none

abbrev pub scan_some : ℕ → List ℕ → Option ℕ
scan_some bound [] = none
scan_some bound (c ∷ cs) = scan bound (c ∷ cs) 0

abbrev as_positive : Option ℕ → Option ℤ
as_positive none = none
as_positive (some n) = some (pos n)

abbrev as_negative : Option ℕ → Option ℤ
as_negative none = none
as_negative (some n) = some (negate n)

-- `strconv.ParseInt(s, 10, 64)`.
unfoldable pub parse_int : List ℕ → Option ℤ
parse_int [] = none
parse_int (c ∷ cs) =
    if eqb c b'-'
    then as_negative (scan_some two_63 cs)
    else if eqb c b'+'
    then as_positive (scan_some (two_63 - 1) cs)
    else as_positive (scan_some (two_63 - 1) (c ∷ cs))

abbrev pub invalid_amount : Result Error ℤ
invalid_amount = err (internal "invalid amount")

-- `major > (1<<63-1-minor)/100`, and the result.
abbrev pub amount_of : ℕ → ℕ → Result Error ℤ
amount_of major minor =
    if ltb ((two_63 - 1 - minor) / 100) major
    then err (internal "amount overflow")
    else ok (pos (major * 100 + minor))

abbrev pub with_minor : ℕ → Option ℤ → Result Error ℤ
with_minor major (some (pos minor)) = if ltb 99 minor then invalid_amount else amount_of major minor
with_minor major _ = invalid_amount

abbrev pub with_major : Option ℤ → List ℕ → Result Error ℤ
with_major (some (pos major)) part = with_minor major (parse_int part)
with_major _ part = invalid_amount

abbrev pub parse_parts : List ℕ × List (List ℕ) → Result Error ℤ
parse_parts (first, second ∷ []) =
    if not (eqb (byte_len second) 2) || eqb (byte_len first) 0
    then invalid_amount
    else with_major (parse_int first) second
parse_parts _ = invalid_amount

unfoldable pub parse_minor : List ℕ → Result Error ℤ
parse_minor value = parse_parts (split_at value)
