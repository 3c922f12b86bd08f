-- ===== src/Proxy/Versions.antt =====
-- Headers as a proxy writes them, read back.
pub mod Text
use semantic_echo.Base.{
  ℕ, zero, suc, ◌+◌, ◌-◌, ◌*◌, ◌/◌, ◌%◌, ◌≤◌, ◌<◌, ◌≡◌, ◌≢◌, refl, sym, ap, ◌∙◌, Bool, true, false,
  not, ◌&&◌, List, [], ◌∷◌, ◌++◌, Option, none, some, ◌⊎◌, inl, inr, arith, if◌then◌else◌, leb, ltb,
  ◌==◌, length, take, drop, append_assoc, append-nil, length-append, take-length, drop-length,
  take_prefix, drop_prefix, ◌^◌, take-append_le, drop-append_le,
}
use semantic_echo.Base.Text.{Bytes, bytes_eq, bytes_eq_iff, bytes_eq_refl}
use semantic_echo.Strconv.{pos}
use semantic_echo.Proxy.{
  Reader, pending, read_full, read_proxy_v1, read_proxy_v2, read_proxy_header, TcpAddr,
  proxy_v2_signature, uint16, byte_at, v2_address,
}
use semantic_echo.Proxy.Reading.{Fills, read_full-Fills}

-- The 16 bytes in front of an address block of `n` bytes.
abbrev pub v2_header : ℕ → ℕ → ℕ → Bytes
v2_header command family n = proxy_v2_signature ++ command ∷ family ∷ (n / 256) ∷ (n % 256) ∷ []

-- A whole header.
abbrev pub v2_frame : ℕ → ℕ → Bytes → Bytes
v2_frame command family body = v2_header command family (length body) ++ body

uint16_header : (command family n : ℕ) → n < 2 ^ 16 → uint16 (v2_header command family n) 14 ≡ n
unfolding uint16
uint16_header command family n h = omega arith

module _ (r : Reader) (command family : ℕ) (body rest : Bytes) (small : length body < 2 ^ 16)
    (sent : pending r ≡ v2_frame command family body ++ rest) where
  header_Fills : Fills r 16 []
  header_Fills = read_full-Fills r 16 [] (rw sent (omega arith))

  header_buffer : (read_full r 16 []).1 ≡ v2_header command family (length body)
  header_buffer = header_Fills.buffer ∙ rw sent refl

  header_rest : pending (read_full r 16 []).2 ≡ body ++ rest
  header_rest = header_Fills.rest ∙ rw sent refl

  body_Fills : Fills (read_full r 16 []).2 (length body) []
  body_Fills =
      read_full-Fills _ (length body) [] (rw header_rest (omega (arith, length-append body rest)))

  declared : uint16 (read_full r 16 []).1 14 ≡ length body
  declared = rw header_buffer (uint16_header command family (length body) small)

  body_buffer : (read_full (read_full r 16 []).2 (length body) []).1 ≡ body
  body_buffer = body_Fills.buffer ∙ rw header_rest (take-length body rest)

  body_rest : pending (read_full (read_full r 16 []).2 (length body) []).2 ≡ rest
  body_rest = body_Fills.rest ∙ rw header_rest (drop-length body rest)

  -- A framed header is read to its end, and the stream goes on behind it.
  read_proxy_v2_framed :
      ((read_proxy_v2 r).0 ≡ v2_address (v2_header command family (length body)) body)
      × (pending (read_proxy_v2 r).1 ≡ rest)
  unfolding read_proxy_v2
  read_proxy_v2_framed =
      ground
        (arith, header_Fills.full, header_buffer, declared, body_Fills.full, body_buffer, body_rest)

  prefix_signature : take 12 (pending r) ≡ proxy_v2_signature
  prefix_signature = rw sent refl

  pub read_proxy_header_framed :
      ((read_proxy_header r).0 ≡ v2_address (v2_header command family (length body)) body)
      × (pending (read_proxy_header r).1 ≡ rest)
  unfolding read_proxy_header bytes_eq
  read_proxy_header_framed = rw (prefix_signature, read_proxy_header) read_proxy_v2_framed

-- The address block of TCP over IPv4 or IPv6: both addresses, both ports, then anything.
abbrev pub v2_block : Bytes → Bytes → ℕ → ℕ → Bytes → Bytes
v2_block src dst sport dport extra =
    src ++ dst ++ (sport / 256) ∷ (sport % 256) ∷ (dport / 256) ∷ (dport % 256) ∷ extra

uint16-append :
    (s : Bytes) (n k : ℕ) (t : Bytes) → length s ≡ k → uint16 (s ++ (n / 256) ∷ (n % 256) ∷ t) k ≡ n
unfolding uint16
uint16-append s n k t e = rw (drop_prefix k s ((n / 256) ∷ (n % 256) ∷ t) e, uint16) (omega arith)

-- What the reader finds in a block whose addresses have `n` bytes.
record Reads (n : ℕ) (src : Bytes) (sport : ℕ) (block : Bytes) : Type 0 where
  source : take n block ≡ src
  port : uint16 block (n + n) ≡ sport
  long : n + n + 4 ≤ length block

v2_block-Reads :
    (n : ℕ) (src dst extra : Bytes) (sport dport : ℕ)
    → length src ≡ n
    → length dst ≡ n
    → Reads n src sport (v2_block src dst sport dport extra)
v2_block-Reads n src dst extra sport dport hs hd =
    let ports = (sport / 256) ∷ (sport % 256) ∷ (dport / 256) ∷ (dport % 256) ∷ extra in
    record {
      source = rw (append_assoc src dst ports) (take_prefix n src (dst ++ ports) hs);
      port = uint16-append (src ++ dst) sport (n + n) _ (omega (arith, length-append src dst));
      long = omega (arith, length-append (src ++ dst) ports, length-append src dst);
    }

v2_address-Reads :
    (family n : ℕ) (src : Bytes) (sport : ℕ) (block : Bytes)
    → ((family ≡ 0x11) × (n ≡ 4)) ⊎ ((family ≡ 0x21) × (n ≡ 16))
    → Reads n src sport block
    → v2_address (v2_header 0x21 family (length block)) block
      ≡ some (record { ip = src; port = pos sport })
unfolding v2_address byte_at
v2_address-Reads family n src sport block (inl (f, e)) h =
    let ip : take 4 block ≡ src = rw (← e) h.source in
    let at : uint16 block 8 ≡ sport = ap (λ (k : ℕ). uint16 block (k + k)) (sym e) ∙ h.port in
    ground (arith, h.long)
v2_address-Reads family n src sport block (inr (f, e)) h =
    let ip : take 16 block ≡ src = rw (← e) h.source in
    let at : uint16 block 32 ≡ sport = ap (λ (k : ℕ). uint16 block (k + k)) (sym e) ∙ h.port in
    ground (arith, h.long)

v2_address_other :
    (command family : ℕ) (body : Bytes)
    → (command ≢ 0x21) ⊎ ((family ≢ 0x11) × (family ≢ 0x21))
    → v2_address (v2_header command family (length body)) body ≡ none
unfolding v2_address byte_at
v2_address_other command family body h = ground arith

-- What a proxy says in a v2 header is what the page server takes for the client: for TCP over IPv4
-- with addresses of 4 bytes, and for TCP over IPv6 with addresses of 16. Any ports and any extra
-- fields may stand in the block, if it stays below 65536 bytes, and the bytes may be cut
-- into any chunks. The stream goes on directly behind the header.
pub read_proxy_header_v2 :
    (r : Reader) (family n : ℕ) (src dst extra rest : Bytes) (sport dport : ℕ)
    → ((family ≡ 0x11) × (n ≡ 4)) ⊎ ((family ≡ 0x21) × (n ≡ 16))
    → length src ≡ n
    → length dst ≡ n
    → length (v2_block src dst sport dport extra) < 2 ^ 16
    → pending r ≡ v2_frame 0x21 family (v2_block src dst sport dport extra) ++ rest
    → ((read_proxy_header r).0 ≡ some (record { ip = src; port = pos sport }))
      × (pending (read_proxy_header r).1 ≡ rest)
read_proxy_header_v2 r family n src dst extra rest sport dport kind hs hd small sent =
    let block = v2_block src dst sport dport extra in
    let (address, left) = read_proxy_header_framed r 0x21 family block rest small sent in
    (
      address
          ∙ v2_address-Reads family n src sport block kind
              (v2_block-Reads n src dst extra sport dport hs hd),
      left,
    )

-- A v2 header that is no PROXY command of version 2, such as LOCAL (0x20), or whose family is
-- neither 0x11 nor 0x21, carries no address; it is read to its end all the same, and the stream
-- goes on directly behind it.
pub read_proxy_header_local :
    (r : Reader) (command family : ℕ) (body rest : Bytes)
    → (command ≢ 0x21) ⊎ ((family ≢ 0x11) × (family ≢ 0x21))
    → length body < 2 ^ 16
    → pending r ≡ v2_frame command family body ++ rest
    → ((read_proxy_header r).0 ≡ none) × (pending (read_proxy_header r).1 ≡ rest)
read_proxy_header_local r command family body rest other small sent =
    let (address, left) = read_proxy_header_framed r command family body rest small sent in
    (address ∙ v2_address_other command family body other, left)
