-- ===== src/Address/Canonical.antt =====
-- `normalizeAddress` on what it returns.
use semantic_echo.Base.{
  ℕ, ◌+◌, ◌-◌, ◌*◌, ◌/◌, ◌%◌, ◌≡◌, refl, sym, ap, ◌∙◌, true, false, [], ◌∷◌, ◌++◌, none, some, inl,
  inr, arith, length, take, drop, All, Bool-cases, Option-cases, length-append, take-append-drop,
}
use mathlib.Core.Path.{subst}
use semantic_echo.Base.Text.{Bytes, bytes_eq, bytes_eq_iff}
use semantic_echo.Net.{to_v4, is_loopback, parse_ip, v4_prefix}
use semantic_echo.Net.Print.{ip_string, print_byte, print_v4, print_v6, groups}
use semantic_echo.Net.Colons.{IsWord, bytes_of}
use semantic_echo.Net.RoundTrip.{parse_ip-print_v6}
use semantic_echo.Net.Range.{AreBytes, IsAddress}
use semantic_echo.Net.Range.Whole.{parse_ip-IsAddress, All-drop}
use semantic_echo.Address.{normalize_address, normalize_ip, loopback}
use semantic_echo.Address.Spellings.{normalize_address-print_v4}

-- Bytes in pairs are groups.
bytes_of-groups :
    (ip : Bytes) (n : ℕ)
    → length ip ≡ 2 * n
    → AreBytes ip
    → (bytes_of (groups ip) ≡ ip) × All IsWord (groups ip) × (length (groups ip) ≡ n)
unfolding groups
bytes_of-groups [] n h w = (refl, tt, omega (arith, h))
bytes_of-groups (a ∷ []) n h w = absurd (omega (arith, h))
bytes_of-groups (a ∷ b ∷ s) n h (wa, (wb, ws)) =
    let (same, words, len) = bytes_of-groups s (n - 1) (omega (arith, h)) ws in
    let high : (a * 256 + b) / 256 ≡ a = omega (arith, wb) in
    let low : (a * 256 + b) % 256 ≡ b = omega (arith, wb) in
    (rw (high, low, same) refl, (omega (arith, wa, wb), words), omega (arith, len, h))

normalize_ip_v6 :
    (ip : Bytes)
    → IsAddress 16 ip
    → is_loopback ip ≡ false
    → to_v4 ip ≡ none
    → normalize_address (normalize_ip ip) ≡ normalize_ip ip
unfolding normalize_address normalize_ip ip_string
normalize_ip_v6 ip (len, w) plain long =
    let (same, words, eight) = bytes_of-groups ip 8 len w in
    let read : parse_ip (print_v6 ip) ≡ some ip =
      subst (λ (ip : Bytes). parse_ip (print_v6 ip) ≡ some ip) same
        (parse_ip-print_v6 (groups ip) words eight) in
    let printed : normalize_ip ip ≡ print_v6 ip =
      rw (normalize_ip, plain, long, ip_string, long) refl in
    let again : normalize_address (print_v6 ip) ≡ normalize_ip ip =
      rw (normalize_address, read) refl in
    ap normalize_address printed ∙ again

-- Four bytes that are no loopback address.
normalize_quad :
    (v4 : Bytes)
    → IsAddress 4 v4
    → is_loopback (v4_prefix ++ v4) ≡ false
    → normalize_address (print_v4 v4) ≡ print_v4 v4
unfolding is_loopback to_v4 bytes_eq
normalize_quad (a ∷ b ∷ c ∷ d ∷ []) (four, (wa, (wb, (wc, (wd, _))))) plain =
    normalize_address-print_v4 a b c d wa wb wc wd ∙ rw plain refl
normalize_quad [] (four, w) plain = absurd (omega (arith, four))
normalize_quad (a ∷ []) (four, w) plain = absurd (omega (arith, four))
normalize_quad (a ∷ b ∷ []) (four, w) plain = absurd (omega (arith, four))
normalize_quad (a ∷ b ∷ c ∷ []) (four, w) plain = absurd (omega (arith, four))
normalize_quad (a ∷ b ∷ c ∷ d ∷ e ∷ s) (four, w) plain = absurd (omega (arith, four))

-- An IPv4 address among sixteen bytes is the last four, behind the prefix.
to_v4-some :
    (ip v4 : Bytes) → IsAddress 16 ip → to_v4 ip ≡ some v4 → (v4_prefix ++ v4 ≡ ip) × IsAddress 4 v4
unfolding to_v4
to_v4-some ip v4 (len, w) e =
    let parts : (bytes_eq (take 12 ip) v4_prefix ≡ true) × (drop 12 ip ≡ v4) = ground arith in
    let front : take 12 ip ≡ v4_prefix = (bytes_eq_iff (take 12 ip) v4_prefix).0 parts.0 in
    let whole : v4_prefix ++ v4 ≡ ip =
      ap (λ (s : Bytes). s ++ v4) (sym front)
      ∙ ap (λ (s : Bytes). take 12 ip ++ s) (sym parts.1)
      ∙ take-append-drop 12 ip in
    (
      whole,
      (
        omega (arith, ap length whole, length-append v4_prefix v4, len),
        subst AreBytes parts.1 (All-drop 12 ip w),
      ),
    )

to_v4_four : (v4 : Bytes) → length v4 ≡ 4 → to_v4 v4 ≡ some v4
unfolding to_v4
to_v4_four v4 four = ground arith

normalize_ip_v4 :
    (ip v4 : Bytes)
    → IsAddress 16 ip
    → is_loopback ip ≡ false
    → to_v4 ip ≡ some v4
    → normalize_address (normalize_ip ip) ≡ normalize_ip ip
unfolding normalize_ip ip_string
normalize_ip_v4 ip v4 h plain short =
    let (whole, four) = to_v4-some ip v4 h short in
    let kept : to_v4 v4 ≡ some v4 = to_v4_four v4 four.0 in
    let printed : normalize_ip ip ≡ print_v4 v4 =
      rw (normalize_ip, plain, short, ip_string, kept) refl in
    let again = normalize_quad v4 four (ap is_loopback whole ∙ plain) in
    ap normalize_address printed ∙ again ∙ sym printed

loopback_again : normalize_address loopback ≡ loopback
unfolding print_v4 print_byte
loopback_again =
    normalize_address-print_v4 127 0 0 1 (omega arith) (omega arith) (omega arith) (omega arith)

normalize_ip_again :
    (ip : Bytes) → IsAddress 16 ip → normalize_address (normalize_ip ip) ≡ normalize_ip ip
unfolding normalize_ip
normalize_ip_again ip h = elim (Bool-cases (is_loopback ip)) [
  | inl loops ↦
      let same : normalize_ip ip ≡ loopback = rw (normalize_ip, loops) refl in
      ap normalize_address same ∙ loopback_again ∙ sym same
  | inr plain ↦ elim (Option-cases (to_v4 ip)) [
    | inl long ↦ normalize_ip_v6 ip h plain long
    | inr (v4, short) ↦ normalize_ip_v4 ip v4 h plain short
  ]
]

-- An address that the program has written is not written otherwise when it is read again: for every
-- text, be it an IPv4 address, an IPv6 address in any spelling or no address at all, normalizing a
-- second time changes nothing.
pub normalize_address_idem :
    (s : Bytes) → normalize_address (normalize_address s) ≡ normalize_address s
unfolding normalize_address
normalize_address_idem s = elim (Option-cases (parse_ip s)) [
  | inl no_ip ↦
      let same : normalize_address s ≡ s = rw (normalize_address, no_ip) refl in
      ap normalize_address same
  | inr (ip, read) ↦
      let same : normalize_address s ≡ normalize_ip ip = rw (normalize_address, read) refl in
      ap normalize_address same ∙ normalize_ip_again ip (parse_ip-IsAddress s ip read) ∙ sym same
]
