-- ===== src/Strconv/RoundTrip.antt =====
-- Decimal texts: what `print_nat` writes is read back.
use semantic_echo.Base.{
  ℕ, zero, suc, ◌+◌, ◌/◌, ◌%◌, ◌^◌, ◌≤◌, ◌<◌, ◌≡◌, ◌≢◌, refl, [], ◌∷◌, some, All, arith,
}
use semantic_echo.Base.Text.{Bytes}
use semantic_echo.Strconv.{pos, digits, print_nat, scan, scan_digits, atoi, parse_uint16}

abbrev pub IsDigit : ℕ → Type 0
IsDigit c = (b'0' ≤ c) × (c ≤ b'9')

scan-digits : (f n : ℕ) (out : Bytes) → n < f → scan (digits f n out) 0 ≡ scan out n
unfolding scan digits
scan-digits zero n out h = elim h [ ]
scan-digits (suc f) n out h = ground (arith, scan-digits f (n / 10) ((b'0' + n % 10) ∷ out))

digits-IsDigit : (f n : ℕ) (out : Bytes) → n < f → All IsDigit out → All IsDigit (digits f n out)
unfolding digits
digits-IsDigit zero n out h d = elim h [ ]
digits-IsDigit (suc f) n out h d = ground (arith, digits-IsDigit f (n / 10) ((b'0' + n % 10) ∷ out))

digits-ne-nil : (f n : ℕ) (out : Bytes) → n < f → digits f n out ≢ []
unfolding digits
digits-ne-nil zero n out h = elim h [ ]
digits-ne-nil (suc f) n out h = ground (arith, digits-ne-nil f (n / 10) ((b'0' + n % 10) ∷ out))

pub print_nat-IsDigit : (n : ℕ) → All IsDigit (print_nat n)
unfolding print_nat
print_nat-IsDigit n = digits-IsDigit (suc n) n [] (omega arith) tt

pub print_nat-ne-nil : (n : ℕ) → print_nat n ≢ []
unfolding print_nat
print_nat-ne-nil n = digits-ne-nil (suc n) n [] (omega arith)

scan_digits-scan : (s : Bytes) → s ≢ [] → scan_digits s ≡ scan s 0
unfolding scan_digits
scan_digits-scan [] h = absurd (h refl)
scan_digits-scan (c ∷ s) h = refl

-- Every number is read back from its decimal text.
pub scan_digits-print_nat : (n : ℕ) → scan_digits (print_nat n) ≡ some n
scan_digits-print_nat n =
    rw (scan_digits-scan (print_nat n) (print_nat-ne-nil n))
      (unfold print_nat scan in scan-digits (suc n) n [] (omega arith))

atoi_unsigned :
    (s : Bytes) (n : ℕ)
    → All IsDigit s
    → s ≢ []
    → n < 2 ^ 63
    → scan_digits s ≡ some n
    → atoi s ≡ some (pos n)
unfolding atoi
atoi_unsigned [] n d h k e = absurd (h refl)
atoi_unsigned (c ∷ s) n d h k e = ground arith

pub atoi-print_nat : (n : ℕ) → n < 2 ^ 63 → atoi (print_nat n) ≡ some (pos n)
atoi-print_nat n h =
    atoi_unsigned (print_nat n) n (print_nat-IsDigit n) (print_nat-ne-nil n) h
      (scan_digits-print_nat n)

pub parse_uint16-print_nat : (n : ℕ) → n < 2 ^ 16 → parse_uint16 (print_nat n) ≡ some n
unfolding parse_uint16
parse_uint16-print_nat n h = ground (arith, scan_digits-print_nat n)
