-- ===== src/Strconv.antt =====
-- What the program uses of Go's `strconv`: `Itoa`, `Atoi` and `ParseUint(s, 10, 16)`.
pub mod RoundTrip
use semantic_echo.Base.{
  ℕ, zero, suc, ◌+◌, ◌-◌, ◌*◌, ◌/◌, ◌%◌, ◌^◌, ◌≤◌, ◌<◌, ◌≡◌, refl, Bool, true, false, List, [], ◌∷◌,
  Option, none, some, arith, if◌then◌else◌, ltb, leb, ◌==◌,
}
use semantic_echo.Base.Text.{Bytes, codes}
use semantic_echo.Net.{is_digit}

-- `negsuc n` is -(n + 1).
pub data ℤ : Type 0 where
  pos : ℕ → ℤ
  negsuc : ℕ → ℤ

-- The decimal digits in front of `out`; the first number bounds the digits.
unfoldable pub digits : ℕ → ℕ → Bytes → Bytes
digits zero n out = out
digits (suc f) n out =
    let more = digits f (n / 10) ((b'0' + n % 10) ∷ out) in
    if ltb n 10 then (b'0' + n) ∷ out else more

unfoldable pub print_nat : ℕ → Bytes
unfolding digits
print_nat n = digits (suc n) n []

unfoldable pub itoa : ℤ → Bytes
unfolding print_nat
itoa (pos n) = print_nat n
itoa (negsuc n) = b'-' ∷ print_nat (suc n)

-- The number that digits spell behind `n`, or none at another byte.
unfoldable pub scan : Bytes → ℕ → Option ℕ
unfolding is_digit
scan [] n = some n
scan (c ∷ s) n = if is_digit c then scan s (n * 10 + (c - b'0')) else none

unfoldable pub scan_digits : Bytes → Option ℕ
unfolding scan
scan_digits [] = none
scan_digits (c ∷ s) = scan (c ∷ s) 0

abbrev positive : Option ℕ → Option ℤ
positive none = none
positive (some n) = if ltb n (2 ^ 63) then some (pos n) else none

abbrev negative : Option ℕ → Option ℤ
negative none = none
negative (some zero) = some (pos 0)
negative (some (suc n)) = if ltb n (2 ^ 63) then some (negsuc n) else none

-- A sign, digits, and a value that an int holds.
unfoldable pub atoi : Bytes → Option ℤ
unfolding scan_digits
atoi [] = none
atoi (c ∷ s) =
    if c == b'-'
    then negative (scan_digits s)
    else if c == b'+'
    then positive (scan_digits s)
    else positive (scan_digits (c ∷ s))

abbrev within_16 : Option ℕ → Option ℕ
within_16 none = none
within_16 (some n) = if ltb n (2 ^ 16) then some n else none

unfoldable pub parse_uint16 : Bytes → Option ℕ
unfolding scan_digits
parse_uint16 s = within_16 (scan_digits s)
