-- ===== src/Net/Hex.antt =====
-- Groups of an IPv6 text: sixteen bits printed in hexadecimal and read again.
use semantic_echo.Base.{
  ℕ, ◌+◌, ◌*◌, ◌/◌, ◌%◌, ◌≤◌, ◌<◌, ◌≡◌, ◌≢◌, refl, ◌∙◌, [], ◌∷◌, ◌++◌, some, arith, All,
  if◌then◌else◌, ltb,
}
use native.Mathlib.Decide.{dec_lt}
use semantic_echo.Base.Text.{Bytes}
use semantic_echo.Net.{colon, hex_value, hex_group}
use semantic_echo.Net.Print.{hex_digit, print_group}

hex_value-hex_digit : (d : ℕ) → d < 16 → hex_value (hex_digit d) ≡ some d
unfolding hex_value hex_digit
hex_value-hex_digit d h = ground arith

hex_group-hex_digit :
    (d off acc : ℕ) (s : Bytes)
    → d < 16
    → off < 4
    → hex_group (hex_digit d ∷ s) off acc ≡ hex_group s (off + 1) (acc * 16 + d)
unfolding hex_group
hex_group-hex_digit d off acc s h k = rw (hex_value-hex_digit d h, hex_group) (ground arith)

-- A text that a group ends before.
pub data Ends : Bytes → Type 0 where
  at_end : Ends []
  at_colon : (s : Bytes) → Ends (colon ∷ s)

hex_group-Ends :
    (rest : Bytes) (off acc : ℕ) → Ends rest → hex_group rest off acc ≡ some (off, acc, rest)
unfolding hex_group hex_value
hex_group-Ends rest off acc at_end = refl
hex_group-Ends rest off acc (at_colon s) = refl

-- What is printed of a group: a first digit and more.
abbrev digits_of : ℕ → Bytes
digits_of g =
    if ltb g 16
    then hex_digit g ∷ []
    else if ltb g 256
    then hex_digit (g / 16) ∷ hex_digit (g % 16) ∷ []
    else if ltb g 4096
    then hex_digit (g / 256) ∷ hex_digit (g / 16 % 16) ∷ hex_digit (g % 16) ∷ []
    else hex_digit (g / 4096)
      ∷ hex_digit (g / 256 % 16)
      ∷ hex_digit (g / 16 % 16)
      ∷ hex_digit (g % 16)
      ∷ []

print_group-digits : (g : ℕ) → g < 65536 → print_group g ≡ digits_of g
unfolding print_group
print_group-digits g h = ground arith

-- A group is read back up to where it ends.
abbrev pub IsRead : ℕ → Bytes → Type 0
IsRead g rest =
    (off : ℕ) × (hex_group (print_group g ++ rest) 0 0 ≡ some (off, g, rest)) × (off ≢ 0)

module _ (rest : Bytes) (e : Ends rest) where
  read_one : (d : ℕ) → d < 16 → hex_group (hex_digit d ∷ rest) 0 0 ≡ some (1, d, rest)
  read_one d h =
      ground (arith, hex_group-hex_digit d 0 0 rest h (omega arith), hex_group-Ends rest 1 d e)

  read_two :
      (c d : ℕ)
      → c < 16
      → d < 16
      → hex_group (hex_digit c ∷ hex_digit d ∷ rest) 0 0 ≡ some (2, c * 16 + d, rest)
  read_two c d k h = ground (
    arith,
    hex_group-hex_digit c 0 0 (hex_digit d ∷ rest) k (omega arith),
    hex_group-hex_digit d 1 c rest h (omega arith),
    hex_group-Ends rest 2 (c * 16 + d) e,
  )

  read_three :
      (b c d : ℕ)
      → b < 16
      → c < 16
      → d < 16
      → hex_group (hex_digit b ∷ hex_digit c ∷ hex_digit d ∷ rest) 0 0
        ≡ some (3, (b * 16 + c) * 16 + d, rest)
  read_three b c d j k h = ground (
    arith,
    hex_group-hex_digit b 0 0 (hex_digit c ∷ hex_digit d ∷ rest) j (omega arith),
    hex_group-hex_digit c 1 b (hex_digit d ∷ rest) k (omega arith),
    hex_group-hex_digit d 2 (b * 16 + c) rest h (omega arith),
    hex_group-Ends rest 3 ((b * 16 + c) * 16 + d) e,
  )

  read_four :
      (a b c d : ℕ)
      → a < 16
      → b < 16
      → c < 16
      → d < 16
      → hex_group (hex_digit a ∷ hex_digit b ∷ hex_digit c ∷ hex_digit d ∷ rest) 0 0
        ≡ some (4, ((a * 16 + b) * 16 + c) * 16 + d, rest)
  read_four a b c d i j k h = ground (
    arith,
    hex_group-hex_digit a 0 0 (hex_digit b ∷ hex_digit c ∷ hex_digit d ∷ rest) i (omega arith),
    hex_group-hex_digit b 1 a (hex_digit c ∷ hex_digit d ∷ rest) j (omega arith),
    hex_group-hex_digit c 2 (a * 16 + b) (hex_digit d ∷ rest) k (omega arith),
    hex_group-hex_digit d 3 ((a * 16 + b) * 16 + c) rest h (omega arith),
    hex_group-Ends rest 4 (((a * 16 + b) * 16 + c) * 16 + d) e,
  )

  digits_of-IsRead :
      (g : ℕ)
      → g < 65536
      → (off : ℕ) × (hex_group (digits_of g ++ rest) 0 0 ≡ some (off, g, rest)) × (off ≢ 0)
  digits_of-IsRead g h = elim (dec_lt g 16) [
    | yes one ↦ (1, ground (arith, read_one g one), omega arith)
    | no more ↦ elim (dec_lt g 256) [
      | yes two ↦ (2, ground (arith, read_two (g / 16) (g % 16)), omega arith)
      | no more' ↦ elim (dec_lt g 4096) [
        | yes three ↦ (3, ground (arith, read_three (g / 256) (g / 16 % 16) (g % 16)), omega arith)
        | no four ↦ (
          4,
          ground (arith, read_four (g / 4096) (g / 256 % 16) (g / 16 % 16) (g % 16)),
          omega arith,
        )
      ]
    ]
  ]

pub print_group-IsRead : (g : ℕ) (rest : Bytes) → g < 65536 → Ends rest → IsRead g rest
print_group-IsRead g rest h e = rw (print_group-digits g h) (digits_of-IsRead rest e g h)

-- The bytes of hexadecimal texts.
abbrev pub IsHex : ℕ → Type 0
IsHex c = (b'0' ≤ c) × (c ≤ b'f') × (c ≢ colon)

hex_digit-IsHex : (d : ℕ) → d < 16 → IsHex (hex_digit d)
unfolding hex_digit
hex_digit-IsHex d h = ground arith

digits_of-IsHex :
    (g : ℕ) → g < 65536 → (c : ℕ) × (s : Bytes) × (digits_of g ≡ c ∷ s) × All IsHex (c ∷ s)
digits_of-IsHex g h =
    let last = hex_digit-IsHex (g % 16) (omega arith) in
    let third = hex_digit-IsHex (g / 16 % 16) (omega arith) in
    let second = hex_digit-IsHex (g / 256 % 16) (omega arith) in
    elim (dec_lt g 16) [
      | yes one ↦ (hex_digit g, [], ground arith, (hex_digit-IsHex g one, tt))
      | no more ↦ elim (dec_lt g 256) [
        | yes two ↦
            let first = hex_digit-IsHex (g / 16) (omega arith) in
            (hex_digit (g / 16), hex_digit (g % 16) ∷ [], ground arith, (first, (last, tt)))
        | no more' ↦ elim (dec_lt g 4096) [
          | yes three ↦
              let first = hex_digit-IsHex (g / 256) (omega arith) in
              (
                hex_digit (g / 256),
                hex_digit (g / 16 % 16) ∷ hex_digit (g % 16) ∷ [],
                ground arith,
                (first, (third, (last, tt))),
              )
          | no four ↦
              let first = hex_digit-IsHex (g / 4096) (omega arith) in
              (
                hex_digit (g / 4096),
                hex_digit (g / 256 % 16) ∷ hex_digit (g / 16 % 16) ∷ hex_digit (g % 16) ∷ [],
                ground arith,
                (first, (second, (third, (last, tt)))),
              )
        ]
      ]
    ]

-- A group begins with a byte that is no colon, and has no other.
pub print_group-IsHex :
    (g : ℕ) → g < 65536 → (c : ℕ) × (s : Bytes) × (print_group g ≡ c ∷ s) × All IsHex (c ∷ s)
print_group-IsHex g h =
    let (c, s, e, k) = digits_of-IsHex g h in (c, s, print_group-digits g h ∙ e, k)
