-- ===== src/Net/Dotted.antt =====
-- Dotted IPv4 texts: four bytes printed and read again, alone or at the end of an IPv6 text.
use semantic_echo.Base.{
  ℕ, suc, ◌+◌, ◌*◌, ◌/◌, ◌%◌, ◌<◌, ◌≡◌, ◌≢◌, refl, true, false, [], ◌∷◌, ◌++◌, Option, some, arith,
  length, append-nil,
}
use native.Mathlib.Decide.{dec_lt}
use semantic_echo.Base.Text.{Bytes, codes}
use semantic_echo.Net.{
  dot, colon, v4_fields, family, parse_ip, parse_v6, contains, hex_group, embedded, separator,
  v6_groups, expand, v4_prefix,
}
use semantic_echo.Net.Print.{print_byte, print_v4}

abbrev pub quad : ℕ → ℕ → ℕ → ℕ → Bytes
quad a b c d = a ∷ b ∷ c ∷ d ∷ []

-- The text behind "::ffff:".
abbrev pub mapped : Bytes → Bytes
mapped s = codes "::ffff:" ++ s

v4_fields-dot :
    (n : ℕ) (rest fields : Bytes)
    → n < 256
    → length fields < 3
    → v4_fields (print_byte n ++ dot ∷ rest) 0 0 fields ≡ v4_fields rest 0 0 (fields ++ n ∷ [])
unfolding v4_fields print_byte
v4_fields-dot n rest fields h k = ground arith

v4_fields_end :
    (n : ℕ) (fields : Bytes)
    → n < 256
    → length fields ≡ 3
    → v4_fields (print_byte n) 0 0 fields ≡ some (fields ++ n ∷ [])
unfolding v4_fields print_byte
v4_fields_end n fields h k = ground arith

family_byte : (n : ℕ) (rest : Bytes) → n < 256 → family (print_byte n ++ dot ∷ rest) ≡ some dot
unfolding family print_byte
family_byte n rest h = ground arith

-- The first group of a dotted text: some digits, then the dot.
abbrev IsGroup : ℕ → Bytes → Type 0
IsGroup n rest =
    (off : ℕ) × (acc : ℕ) × (hex_group (print_byte n ++ dot ∷ rest) 0 0
      ≡ some (off, acc, dot ∷ rest))
    × (off ≢ 0)

hex_byte : (n : ℕ) (rest : Bytes) → n < 256 → IsGroup n rest
unfolding hex_group print_byte
hex_byte n rest h = elim (dec_lt n 10) [
  | yes one ↦ (1, n, ground arith, omega arith)
  | no more ↦ elim (dec_lt n 100) [
    | yes two ↦ (2, n / 10 * 16 + n % 10, ground arith, omega arith)
    | no three ↦ (3, (n / 100 * 16 + n / 10 % 10) * 16 + n % 10, ground arith, omega arith)
  ]
]

contains_byte :
    (n : ℕ) (rest : Bytes) → n < 256 → contains b'%' (print_byte n ++ rest) ≡ contains b'%' rest
unfolding contains print_byte
contains_byte n rest h = ground arith

separator_byte :
    (n : ℕ) (rest out : Bytes)
    → n < 256
    → separator (colon ∷ (print_byte n ++ rest)) out (some 0)
      ≡ some (true, record { out = out; ellipsis = some 0; rest = print_byte n ++ rest })
unfolding separator print_byte
separator_byte n rest out h = ground arith

-- The round that reads a group of "ffff:" in front of a dotted text.
v6_groups_ffff :
    (k n : ℕ) (rest : Bytes)
    → n < 256
    → v6_groups
        (suc k)
        (record { out = []; ellipsis = some 0; rest = codes "ffff:" ++ (print_byte n ++ rest) })
      ≡ v6_groups k
          (record { out = 255 ∷ 255 ∷ []; ellipsis = some 0; rest = print_byte n ++ rest })
unfolding v6_groups hex_group
v6_groups_ffff k n rest h = rw (separator_byte n rest (255 ∷ 255 ∷ []) h)

-- The round that meets a dotted text hands all of it over.
v6_groups-dot :
    (k n : ℕ) (rest out : Bytes) (ellipsis : Option ℕ)
    → n < 256
    → v6_groups
        (suc k)
        (record { out = out; ellipsis = ellipsis; rest = print_byte n ++ dot ∷ rest })
      ≡ embedded (print_byte n ++ dot ∷ rest) out ellipsis
unfolding v6_groups
v6_groups-dot k n rest out ellipsis h =
    let (off, acc, e, some_digit) = hex_byte n rest h in rw (e, v6_groups) (ground arith)

module _ (a b c d : ℕ) (ha : a < 256) (hb : b < 256) (hc : c < 256) (hd : d < 256) where
  pub v4_fields-print_v4 : v4_fields (print_v4 (quad a b c d)) 0 0 [] ≡ some (quad a b c d)
  unfolding print_v4
  v4_fields-print_v4 =
      rw
        (
          v4_fields-dot a (print_v4 (b ∷ c ∷ d ∷ [])) [] ha (omega arith),
          v4_fields-dot b (print_v4 (c ∷ d ∷ [])) (a ∷ []) hb (omega arith),
          v4_fields-dot c (print_v4 (d ∷ [])) (a ∷ b ∷ []) hc (omega arith),
        )
        (v4_fields_end d (a ∷ b ∷ c ∷ []) hd refl)

  family-print_v4 : family (print_v4 (quad a b c d)) ≡ some dot
  unfolding print_v4
  family-print_v4 = family_byte a (print_v4 (b ∷ c ∷ d ∷ [])) ha

  -- Four bytes are read back from their dotted text, as an address that stands for IPv4.
  pub parse_ip-print_v4 : parse_ip (print_v4 (quad a b c d)) ≡ some (v4_prefix ++ quad a b c d)
  unfolding parse_ip
  parse_ip-print_v4 = rw (family-print_v4, v4_fields-print_v4)

  contains-print_v4 : contains b'%' (print_v4 (quad a b c d)) ≡ false
  unfolding print_v4 contains
  contains-print_v4 = ground (
    arith,
    contains_byte a (dot ∷ print_v4 (b ∷ c ∷ d ∷ [])) ha,
    contains_byte b (dot ∷ print_v4 (c ∷ d ∷ [])) hb,
    contains_byte c (dot ∷ print_v4 (d ∷ [])) hc,
    contains_byte d [] hd,
    append-nil (print_byte d),
  )

  parse_v6-mapped : parse_v6 (mapped (print_v4 (quad a b c d))) ≡ some (v4_prefix ++ quad a b c d)
  unfolding parse_v6 print_v4
  parse_v6-mapped =
      rw
        (
          v6_groups_ffff 7 a (dot ∷ print_v4 (b ∷ c ∷ d ∷ [])) ha,
          v6_groups-dot 6 a (print_v4 (b ∷ c ∷ d ∷ [])) (255 ∷ 255 ∷ []) (some 0) ha,
        )
        (unfold embedded expand in rw v4_fields-print_v4 (ground arith))

  -- The same address is read from the dotted text behind "::ffff:".
  pub parse_ip-mapped :
      parse_ip (mapped (print_v4 (quad a b c d))) ≡ some (v4_prefix ++ quad a b c d)
  unfolding parse_ip family contains
  parse_ip-mapped = rw (contains-print_v4) parse_v6-mapped
