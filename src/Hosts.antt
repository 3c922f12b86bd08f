-- ===== src/Hosts.antt =====
-- `splitComma` and `addHosts` of main.go, which legacy/main.go repeats: the names of a certificate.
pub mod Splitting
pub mod Joining
use semantic_echo.Base.{
  ℕ, zero, suc, ◌+◌, ◌-◌, ◌≡◌, refl, Bool, true, false, ◌||◌, List, [], ◌∷◌, ◌++◌, Option, none,
  some, if◌then◌else◌, ltb, ◌==◌, length, take, drop, get_elem?,
}
use semantic_echo.Base.Text.{Bytes}
use semantic_echo.Net.{parse_ip}

abbrev pub comma : ℕ
comma = b','

abbrev pub is_at : Bytes → ℕ → ℕ → Bool
is_at s i c = elim (get_elem? s i) [ none ↦ false | some x ↦ x == c ]

-- `s[start:i]`
abbrev pub slice : Bytes → ℕ → ℕ → Bytes
slice s start i = take (i - start) (drop start s)

-- `i == len(s) || s[i] == ','`
abbrev pub at_cut : Bytes → ℕ → Bool
at_cut s i = i == length s || is_at s i comma

-- `for i := …; i <= len(s); i++`, with the number of rounds left.
unfoldable pub split_loop : Bytes → ℕ → ℕ → ℕ → List Bytes → List Bytes
split_loop s zero i start out = out
split_loop s (suc rounds) i start out =
    let cuts = at_cut s i in
    let out' = if cuts then (if ltb start i then out ++ slice s start i ∷ [] else out) else out in
    split_loop s rounds (i + 1) (if cuts then i + 1 else start) out'

unfoldable pub split_comma : Bytes → List Bytes
unfolding split_loop
split_comma s = split_loop s (length s + 1) 0 0 []

-- What `addHosts` changes of an x509.Certificate.
pub record Template : Type 0 where
  pub ip_addresses : List Bytes
  pub dns_names : List Bytes

unfoldable pub add_hosts : Template → List Bytes → Template
add_hosts t [] = t
add_hosts t (h ∷ hs) =
    add_hosts
      (elim (parse_ip h) [
        | some ip ↦ record t { ip_addresses = t.ip_addresses ++ ip ∷ [] }
        | none ↦ record t { dns_names = t.dns_names ++ h ∷ [] }
      ])
      hs
