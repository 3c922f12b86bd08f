-- ===== src/Address.antt =====
-- `normalizeAddress` and `clientAddress` of observe.go, `addressOf` of main.go; legacy/observe.go
-- and legacy/main.go repeat the first and the last.
pub mod Spellings
pub mod Canonical
mod Tests
use semantic_echo.Base.{
  ℕ, ◌≡◌, refl, Bool, true, false, not, List, [], ◌∷◌, ◌++◌, Option, none, some, arith,
  if◌then◌else◌, ◌==◌, length, ◌||◌,
}
use semantic_echo.Base.Text.{Bytes, codes}
use semantic_echo.Net.{parse_ip, to_v4, is_loopback}
use semantic_echo.Net.Print.{ip_string}
use semantic_echo.Net.Hostport.{split_host_port}

abbrev pub loopback : Bytes
loopback = codes "127.0.0.1"

unfoldable pub normalize_ip : Bytes → Bytes
normalize_ip ip =
    if is_loopback ip
    then loopback
    else elim (to_v4 ip) [ some v4 ↦ ip_string v4 | none ↦ ip_string ip ]

unfoldable pub normalize_address : Bytes → Bytes
unfolding normalize_ip
normalize_address address = elim (parse_ip address) [ none ↦ address | some ip ↦ normalize_ip ip ]

unfoldable pub address_of : Bytes → Bytes
address_of remote = elim (split_host_port remote) [
  | none ↦ normalize_address remote
  | some (host, _) ↦ normalize_address host
]
