-- ===== src/Net/Range.antt =====
-- The parts of `ParseIP` give bytes: dotted fields, groups, and an embedded IPv4 address.
pub mod Whole
use semantic_echo.Base.{
  ℕ, zero, suc, ◌+◌, ◌-◌, ◌*◌, ◌/◌, ◌%◌, ◌≤◌, ◌<◌, ◌≡◌, ◌≢◌, refl, sym, ap, ◌∙◌, Bool, true, false,
  not, ◌&&◌, List, [], ◌∷◌, ◌++◌, Option, none, some, inl, inr, arith, length, take, drop, All,
  All-append, Bool-cases, Option-cases, if◌then◌else◌, ltb, leb, ◌==◌, length-append,
  take-append-drop, ltb→le,
}
use mathlib.Core.Path.{subst}
use semantic_echo.Base.Text.{Bytes}
use semantic_echo.Net.{
  colon, dot, is_digit, hex_value, hex_group, v4_fields, Groups, embedded, separator, v6_groups,
  replicate, expand, finish, groups_of, starts_dot, mapped_bytes, parse_v6, parse_ip, family,
  contains, v4_prefix,
}
use semantic_echo.Net.Runs.{length-replicate}

abbrev pub IsByte : ℕ → Type 0
IsByte b = b < 256

abbrev pub AreBytes : Bytes → Type 0
AreBytes = All IsByte

-- Four bytes, or sixteen.
abbrev pub IsAddress : ℕ → Bytes → Type 0
IsAddress n ip = (length ip ≡ n) × AreBytes ip

pub v4_fields-IsAddress :
    (s : Bytes) (val digits : ℕ) (fields v : Bytes)
    → v4_fields s val digits fields ≡ some v
    → IsByte val
    → AreBytes fields
    → IsAddress 4 v
unfolding v4_fields
v4_fields-IsAddress [] val digits fields v e h k =
    let end = All-append IsByte fields (val ∷ []) k (h, tt) in
    let full : (length fields ≡ 3) × (fields ++ val ∷ [] ≡ v) = ground arith in
    (
      omega (arith, length-append fields (val ∷ []), full.0, ap length full.1),
      subst AreBytes full.1 end,
    )
v4_fields-IsAddress (c ∷ s) val digits fields v e h k =
    let val' = val * 10 + (c - b'0') in
    let more : (v4_fields s val' (digits + 1) fields ≡ some v) → IsByte val' → IsAddress 4 v =
      λ e h. v4_fields-IsAddress s val' (digits + 1) fields v e h k in
    let next : (v4_fields s 0 0 (fields ++ val ∷ []) ≡ some v) → IsAddress 4 v = λ e.
      v4_fields-IsAddress s 0 0 (fields ++ val ∷ []) v e (omega arith)
        (All-append IsByte fields (val ∷ []) k (h, tt)) in
    elim (Bool-cases (is_digit c)) [
      | inl digit ↦ elim (Bool-cases (ltb 255 val')) [
        | inl big ↦ absurd (ground arith)
        | inr small ↦ more (ground arith) (omega (arith, ltb→le 255 val' small))
      ]
      | inr other ↦ next (ground arith)
    ]

-- The greatest value of so many hexadecimal digits, and one.
abbrev cap : ℕ → ℕ
cap zero = 1
cap (suc n) = 16 * cap n

cap_next : (n : ℕ) → cap (n + 1) ≡ 16 * cap n
cap_next n = let next : n + 1 ≡ suc n = omega arith in ap cap next

hex_value-lt : (c v : ℕ) → hex_value c ≡ some v → v < 16
unfolding hex_value
hex_value-lt c v e = ground arith

stopped :
    (s rest : Bytes) (off acc off' acc' : ℕ)
    → ◌≡◌ {A = Option (ℕ × ℕ × Bytes)} (some (off, acc, s)) (some (off', acc', rest))
    → off ≤ 4
    → acc < cap off
    → (off' ≤ 4) × (acc' < cap off')
stopped s rest off acc off' acc' e h k =
    let same : off ≡ off' = cc in
    let same' : acc ≡ acc' = cc in (omega (arith, same), omega (arith, same', ap cap same))

hex_group-lt :
    (s : Bytes) (off acc off' acc' : ℕ) (rest : Bytes)
    → hex_group s off acc ≡ some (off', acc', rest)
    → off ≤ 4
    → acc < cap off
    → (off' ≤ 4) × (acc' < cap off')
unfolding hex_group
hex_group-lt [] off acc off' acc' rest e h k = stopped [] rest off acc off' acc' e h k
hex_group-lt (c ∷ s) off acc off' acc' rest e h k = elim (Option-cases (hex_value c)) [
  | inl other ↦ stopped (c ∷ s) rest off acc off' acc' (rw (other, hex_group) at e) h k
  | inr (v, digit) ↦ elim (Bool-cases (ltb 3 off)) [
    | inl fifth ↦ absurd (ground arith)
    | inr more ↦
        hex_group-lt s (off + 1) (acc * 16 + v) off' acc' rest (ground arith)
          (omega (arith, ltb→le 3 off more)) (omega (arith, cap_next off, hex_value-lt c v digit))
  ]
]

cap-le : (n : ℕ) → n ≤ 4 → cap n ≤ 65536
cap-le zero h = omega arith
cap-le (suc zero) h = omega arith
cap-le (suc (suc zero)) h = omega arith
cap-le (suc (suc (suc zero))) h = omega arith
cap-le (suc (suc (suc (suc zero)))) h = omega arith
cap-le (suc (suc (suc (suc (suc n))))) h = absurd (omega (arith, h))

-- A group is two bytes.
pub group-AreBytes :
    (s : Bytes) (off acc : ℕ) (rest : Bytes)
    → hex_group s 0 0 ≡ some (off, acc, rest)
    → AreBytes (acc / 256 ∷ acc % 256 ∷ [])
group-AreBytes s off acc rest e =
    let (few, small) = hex_group-lt s 0 0 off acc rest e (omega arith) (omega arith) in
    (omega (arith, small, cap-le off few), (omega arith, tt))

pub embedded-AreBytes :
    (s out : Bytes) (at : Option ℕ) (g : Groups)
    → embedded s out at ≡ some g
    → AreBytes out
    → AreBytes g.out
unfolding embedded
embedded-AreBytes s out at g e h = elim (Option-cases (v4_fields s 0 0 [])) [
  | inl bad ↦ absurd (ground (arith, rw (bad, embedded) at e))
  | inr (v4, good) ↦
      let four = v4_fields-IsAddress s 0 0 [] v4 good (omega arith) tt in
      let same : out ++ v4 ≡ g.out = ground (arith, rw (good, embedded) at e) in
      subst AreBytes same (All-append IsByte out v4 h four.1)
]

pub separator_out :
    (s out : Bytes) (at : Option ℕ) (again : Bool) (g : Groups)
    → separator s out at ≡ some (again, g)
    → out ≡ g.out
unfolding separator
separator_out [] out at again g e = ground arith
separator_out (c ∷ []) out at again g e = ground arith
separator_out (c ∷ d ∷ s) out at again g e = ground arith
