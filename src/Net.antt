-- ===== src/Net.antt =====
-- What the program uses of Go's `net` and `net/netip`: `ParseIP`, `IP.To4`, `IP.IsLoopback`,
-- `IP.String` and `SplitHostPort`. An address is its 16 bytes; an error is `none`.
pub mod Print
pub mod Dotted
pub mod Hex
pub mod Colons
pub mod Runs
pub mod Sixteen
pub mod RoundTrip
pub mod Range
pub mod Hostport
use semantic_echo.Base.{
  ℕ, zero, suc, ◌+◌, ◌-◌, ◌*◌, ◌/◌, ◌%◌, ◌^◌, ◌≤◌, ◌<◌, ◌≡◌, refl, Bool, true, false, not, ◌&&◌,
  ◌||◌, List, [], ◌∷◌, ◌++◌, Option, none, some, arith, if◌then◌else◌, ltb, leb, ◌==◌, length, take,
  drop,
}
use semantic_echo.Base.Text.{Bytes, codes, bytes_eq}

abbrev pub colon : ℕ
colon = b':'

abbrev pub dot : ℕ
dot = b'.'

unfoldable pub is_digit : ℕ → Bool
is_digit c = leb b'0' c && leb c b'9'

unfoldable pub contains : ℕ → Bytes → Bool
contains c [] = false
contains c (x ∷ s) = x == c || contains c s

-- The loop of `parseIPv4Fields`: the value and the number of digits of the field at hand, and the
-- fields before it.
unfoldable pub v4_fields : Bytes → ℕ → ℕ → Bytes → Option Bytes
unfolding is_digit
v4_fields [] val digits fields =
    if digits == 0 then none else if length fields == 3 then some (fields ++ val ∷ []) else none
v4_fields (c ∷ s) val digits fields =
    let val' = val * 10 + (c - b'0') in
    let more = v4_fields s val' (digits + 1) fields in
    let next = v4_fields s 0 0 (fields ++ val ∷ []) in
    if is_digit c
    then (if digits == 1 && val == 0 then none else if ltb 255 val' then none else more)
    else if c == dot
    then (if digits == 0 then none else if length fields == 3 then none else next)
    else none

-- The value of a hexadecimal digit.
unfoldable pub hex_value : ℕ → Option ℕ
hex_value c =
    if leb b'0' c && leb c b'9'
    then some (c - b'0')
    else if leb b'a' c && leb c b'f'
    then some (c - b'a' + 10)
    else if leb b'A' c && leb c b'F'
    then some (c - b'A' + 10)
    else none

-- The digits at the head of a text: how many, their value, and the rest. A fifth digit fails.
unfoldable pub hex_group : Bytes → ℕ → ℕ → Option (ℕ × ℕ × Bytes)
unfolding hex_value
hex_group [] off acc = some (off, acc, [])
hex_group (c ∷ s) off acc = elim (hex_value c) [
  | none ↦ some (off, acc, c ∷ s)
  | some v ↦ if ltb 3 off then none else hex_group s (off + 1) (acc * 16 + v)
]

-- Where the loop of `parseIPv6` left off: the bytes so far, where the `::` stands, the rest.
pub record Groups : Type 0 where
  pub out : Bytes
  pub ellipsis : Option ℕ
  pub rest : Bytes

abbrev is_none {ℓ} : {A : Type ℓ} → Option A → Bool
is_none none = true
is_none (some _) = false

-- A rest that begins with a dot: the group that was read starts an IPv4 address at its text `s`.
unfoldable pub embedded : Bytes → Bytes → Option ℕ → Option Groups
embedded s out ellipsis =
    if is_none ellipsis && not (length out == 12)
    then none
    else if ltb 16 (length out + 4)
    then none
    else elim (v4_fields s 0 0 []) [
      | none ↦ none
      | some v4 ↦ some (record { out = out ++ v4; ellipsis = ellipsis; rest = [] })
    ]

-- What follows a group: the end, or a colon and perhaps the `::`. `true` asks for another round.
unfoldable pub separator : Bytes → Bytes → Option ℕ → Option (Bool × Groups)
separator [] out ellipsis = some (false, record { out = out; ellipsis = ellipsis; rest = [] })
separator (c ∷ []) out ellipsis = none
separator (c ∷ d ∷ s) out ellipsis =
    if not (c == colon)
    then none
    else if not (d == colon)
    then some (true, record { out = out; ellipsis = ellipsis; rest = d ∷ s })
    else if not (is_none ellipsis)
    then none
    else some (not (length s == 0), record { out = out; ellipsis = some (length out); rest = s })

abbrev pub starts_dot : Bytes → Bool
starts_dot [] = false
starts_dot (c ∷ _) = c == dot

-- The loop of `parseIPv6`, with the number of rounds left: eight groups fill an address.
unfoldable pub v6_groups : ℕ → Groups → Option Groups
v6_groups zero g = some g
v6_groups (suc n) g = elim (hex_group g.rest 0 0) [
  | none ↦ none
  | some (off, acc, s) ↦
      if off == 0
      then none
      else if starts_dot s
      then embedded g.rest g.out g.ellipsis
      else elim (separator s (g.out ++ acc / 256 ∷ acc % 256 ∷ []) g.ellipsis) [
        | none ↦ none
        | some (again, g') ↦ elim again [ true ↦ v6_groups n g' | false ↦ some g' ]
      ]
]

abbrev pub replicate : ℕ → Bytes
replicate zero = []
replicate (suc n) = 0 ∷ replicate n

-- The end of `parseIPv6`: the text is used up, and the `::` makes up for what is missing.
unfoldable pub expand : Groups → Option Bytes
expand g = if not (length g.rest == 0) then none else elim g.ellipsis [
  | none ↦ if length g.out == 16 then some g.out else none
  | some at ↦
      if ltb (length g.out) 16
      then some (take at g.out ++ replicate (16 - length g.out) ++ drop at g.out)
      else none
]

abbrev pub finish : Option Groups → Option Bytes
finish none = none
finish (some g) = expand g

abbrev pub groups_of : Bytes → Groups
groups_of s = record { out = []; ellipsis = none; rest = s }

-- The `::` that an address may begin with.
unfoldable pub parse_v6 : Bytes → Option Bytes
parse_v6 (c ∷ d ∷ s) =
    if c == colon && d == colon
    then (if length s == 0
        then some (replicate 16)
        else finish (v6_groups 8 (record { out = []; ellipsis = some 0; rest = s })))
    else finish (v6_groups 8 (groups_of (c ∷ d ∷ s)))
parse_v6 s = finish (v6_groups 8 (groups_of s))

-- ::ffff:0:0/96, the addresses that stand for IPv4.
abbrev pub v4_prefix : Bytes
v4_prefix = 0 ∷ 0 ∷ 0 ∷ 0 ∷ 0 ∷ 0 ∷ 0 ∷ 0 ∷ 0 ∷ 0 ∷ 255 ∷ 255 ∷ []

abbrev pub mapped_bytes : Option Bytes → Option Bytes
mapped_bytes none = none
mapped_bytes (some v4) = some (v4_prefix ++ v4)

-- The first '.', ':' or '%' of the text decides how it is read.
unfoldable pub family : Bytes → Option ℕ
family [] = none
family (c ∷ s) = if c == dot || c == colon || c == b'%' then some c else family s

abbrev parse_as : Bytes → Option ℕ → Option Bytes
parse_as s none = none
parse_as s (some c) =
    if c == dot
    then mapped_bytes (v4_fields s 0 0 [])
    else if c == colon
    then (if contains b'%' s then none else parse_v6 s)
    else none

-- `net.ParseIP`. An address with a zone is none.
unfoldable pub parse_ip : Bytes → Option Bytes
parse_ip s = parse_as s (family s)

-- `IP.To4`
unfoldable pub to_v4 : Bytes → Option Bytes
to_v4 ip =
    if length ip == 4
    then some ip
    else if length ip == 16 && bytes_eq (take 12 ip) v4_prefix
    then some (drop 12 ip)
    else none

abbrev loopback_v6 : Bytes
loopback_v6 = 0 ∷ 0 ∷ 0 ∷ 0 ∷ 0 ∷ 0 ∷ 0 ∷ 0 ∷ 0 ∷ 0 ∷ 0 ∷ 0 ∷ 0 ∷ 0 ∷ 0 ∷ 1 ∷ []

abbrev starts_127 : Bytes → Bool
starts_127 [] = false
starts_127 (a ∷ _) = a == 127

-- `IP.IsLoopback`
unfoldable pub is_loopback : Bytes → Bool
unfolding to_v4 bytes_eq
is_loopback ip = elim (to_v4 ip) [ some v4 ↦ starts_127 v4 | none ↦ bytes_eq ip loopback_v6 ]
