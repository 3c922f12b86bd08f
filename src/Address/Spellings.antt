-- ===== src/Address/Spellings.antt =====
-- The spellings of one address that collide in practice: an IPv4 address, the same address mapped
-- into IPv6, and the loopback addresses.
use semantic_echo.Base.{
  ℕ, ◌≤◌, ◌<◌, ◌≡◌, ◌≢◌, refl, [], ◌∷◌, ◌++◌, some, All, All-append, arith, if◌then◌else◌, ◌==◌,
}
use semantic_echo.Base.Text.{Bytes, codes}
use semantic_echo.Net.{colon, dot, to_v4, is_loopback, v4_prefix}
use semantic_echo.Net.Print.{print_byte, print_v4, ip_string}
use semantic_echo.Net.Dotted.{quad, mapped, parse_ip-print_v4, parse_ip-mapped}
use semantic_echo.Net.Hostport.{split_host_port}
use semantic_echo.Net.Hostport.Cutting.{Lacks, IsPlain, split_plain, split_bracketed}
use semantic_echo.Address.{normalize_address, normalize_ip, address_of, loopback}

-- Digits and dots.
abbrev pub IsDotted : Bytes → Type 0
IsDotted = All (λ c. (b'.' ≤ c) × (c ≤ b'9'))

print_byte-IsDotted : (n : ℕ) → n < 256 → IsDotted (print_byte n)
unfolding print_byte
print_byte-IsDotted n h = ground arith

Lacks-IsDotted : (c : ℕ) (s : Bytes) → b'9' < c → IsDotted s → Lacks c s
Lacks-IsDotted c [] h d = tt
Lacks-IsDotted c (x ∷ s) h d = (omega arith, Lacks-IsDotted c s h d.1)

pub IsDotted-IsPlain : (s : Bytes) → IsDotted s → IsPlain s
IsDotted-IsPlain s d = record {
  no_colon = Lacks-IsDotted colon s (omega arith) d;
  no_open = Lacks-IsDotted b'[' s (omega arith) d;
  no_close = Lacks-IsDotted b']' s (omega arith) d;
}

-- A dotted text with something in it is cut before its port.
split_dotted :
    (s port : Bytes)
    → IsDotted s
    → s ≢ []
    → IsPlain port
    → split_host_port (s ++ colon ∷ port) ≡ some (s, port)
split_dotted [] port d h p = absurd (h refl)
split_dotted (c ∷ s) port d h p = split_plain c s port (IsDotted-IsPlain (c ∷ s) d) p

separated : (s t : Bytes) → IsDotted s → IsDotted t → IsDotted (s ++ dot ∷ t)
separated s t h k = All-append _ s (dot ∷ t) h (omega arith, k)

mapped-Lacks : (c : ℕ) (s : Bytes) → b':' < c → c < b'f' → Lacks c s → Lacks c (mapped s)
mapped-Lacks c s h k l = All-append _ (codes "::ffff:") s (omega arith) l

module _ (a b c d : ℕ) (ha : a < 256) (hb : b < 256) (hc : c < 256) (hd : d < 256) where
  -- How the program writes the address: 127.0.0.1 for all of 127.0.0.0/8.
  abbrev pub canonical : Bytes
  canonical = if a == 127 then loopback else print_v4 (quad a b c d)

  normalize_quad : normalize_ip (v4_prefix ++ quad a b c d) ≡ canonical
  unfolding normalize_ip is_loopback to_v4 ip_string
  normalize_quad = refl

  pub normalize_address-print_v4 : normalize_address (print_v4 (quad a b c d)) ≡ canonical
  unfolding normalize_address
  normalize_address-print_v4 =
      rw (parse_ip-print_v4 a b c d ha hb hc hd, normalize_address) normalize_quad

  pub normalize_address-mapped : normalize_address (mapped (print_v4 (quad a b c d))) ≡ canonical
  unfolding normalize_address
  normalize_address-mapped =
      rw (parse_ip-mapped a b c d ha hb hc hd, normalize_address) normalize_quad

  pub print_v4-IsDotted : IsDotted (print_v4 (quad a b c d))
  unfolding print_v4
  print_v4-IsDotted =
      separated (print_byte a) (print_v4 (b ∷ c ∷ d ∷ [])) (print_byte-IsDotted a ha) (
        separated (print_byte b) (print_v4 (c ∷ d ∷ [])) (print_byte-IsDotted b hb) (
          separated (print_byte c) (print_v4 (d ∷ [])) (print_byte-IsDotted c hc)
            (print_byte-IsDotted d hd)))

  pub print_v4-ne-nil : print_v4 (quad a b c d) ≢ []
  unfolding print_v4 print_byte
  print_v4-ne-nil = ground arith

  -- The address of a connection is the same text whether the socket reports the client in dotted
  -- form, "a.b.c.d:port", or mapped into IPv6, "[::ffff:a.b.c.d]:port", for any four bytes and any
  -- port text with neither colon nor bracket: 127.0.0.1 for a loopback address, and else the dotted
  -- form.
  pub address_of_dual_stack :
      (port : Bytes)
      → IsPlain port
      → (address_of (print_v4 (quad a b c d) ++ colon ∷ port) ≡ canonical)
        × (address_of (b'[' ∷ (mapped (print_v4 (quad a b c d)) ++ b']' ∷ colon ∷ port))
            ≡ canonical)
  unfolding address_of
  address_of_dual_stack port p =
      let text = print_v4 (quad a b c d) in
      let plain = IsDotted-IsPlain text print_v4-IsDotted in
      (
        rw (split_dotted text port print_v4-IsDotted print_v4-ne-nil p, address_of)
            normalize_address-print_v4,
        rw
            (
              split_bracketed (mapped text) port
                  (mapped-Lacks b'[' text (omega arith) (omega arith) plain.no_open)
                  (mapped-Lacks b']' text (omega arith) (omega arith) plain.no_close) p,
              address_of,
            )
            normalize_address-mapped,
      )
