-- ===== src/Net/Print.antt =====
-- `IP.String` for an address of 4 or 16 bytes, the only lengths that the program prints.
use semantic_echo.Base.{
  ℕ, ◌+◌, ◌-◌, ◌*◌, ◌/◌, ◌%◌, ◌&&◌, List, [], ◌∷◌, ◌++◌, none, some, if◌then◌else◌, ltb, leb, ◌==◌,
  take, drop,
}
use semantic_echo.Base.Text.{Bytes}
use semantic_echo.Net.{colon, dot, to_v4}

-- One byte in decimal.
unfoldable pub print_byte : ℕ → Bytes
print_byte n =
    if ltb n 10
    then (b'0' + n) ∷ []
    else if ltb n 100
    then (b'0' + n / 10) ∷ (b'0' + n % 10) ∷ []
    else (b'0' + n / 100) ∷ (b'0' + n / 10 % 10) ∷ (b'0' + n % 10) ∷ []

-- The bytes in decimal, a dot between two.
unfoldable pub print_v4 : Bytes → Bytes
print_v4 [] = []
print_v4 (a ∷ []) = print_byte a
print_v4 (a ∷ b ∷ s) = print_byte a ++ dot ∷ print_v4 (b ∷ s)

unfoldable pub hex_digit : ℕ → ℕ
hex_digit d = if ltb d 10 then b'0' + d else b'a' + (d - 10)

-- A group of 16 bits in hexadecimal, with no leading zero.
unfoldable pub print_group : ℕ → Bytes
unfolding hex_digit
print_group g =
    (if ltb g 4096 then [] else hex_digit (g / 4096) ∷ [])
    ++ (if ltb g 256 then [] else hex_digit (g / 256 % 16) ∷ [])
    ++ (if ltb g 16 then [] else hex_digit (g / 16 % 16) ∷ [])
    ++ hex_digit (g % 16) ∷ []

unfoldable pub groups : Bytes → List ℕ
groups (a ∷ b ∷ s) = (a * 256 + b) ∷ groups s
groups _ = []

unfoldable pub print_groups : List ℕ → Bytes
print_groups [] = []
print_groups (g ∷ []) = print_group g
print_groups (g ∷ h ∷ s) = print_group g ++ colon ∷ print_groups (h ∷ s)

-- How many groups at the head are zero.
unfoldable pub zeros : List ℕ → ℕ
zeros [] = 0
zeros (g ∷ s) = if g == 0 then 1 + zeros s else 0

-- The first of the longest runs of two or more zero groups: where it starts and how long it is.
unfoldable pub longest : List ℕ → ℕ → ℕ × ℕ → ℕ × ℕ
unfolding zeros
longest [] i best = best
longest (g ∷ s) i best =
    let run = zeros (g ∷ s) in
    longest s (i + 1) (if leb 2 run && ltb best.1 run then (i, run) else best)

unfoldable pub print_v6 : Bytes → Bytes
unfolding groups print_groups longest print_group
print_v6 ip =
    let gs = groups ip in
    let best = longest gs 0 (0, 0) in
    if best.1 == 0
    then print_groups gs
    else print_groups (take best.0 gs) ++ colon ∷ colon ∷ print_groups (drop (best.0 + best.1) gs)

unfoldable pub ip_string : Bytes → Bytes
unfolding to_v4 print_v4 print_v6
ip_string ip = elim (to_v4 ip) [ some v4 ↦ print_v4 v4 | none ↦ print_v6 ip ]
