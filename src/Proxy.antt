-- ===== src/Proxy.antt =====
-- proxy.go: the reader of PROXY protocol headers in front of the page server.
-- A reader is the list of the chunks in which the bytes of the connection arrive before the
-- deadline. At its end a read fails, by the peer's FIN or by the deadline.
pub mod Reading
pub mod Header
pub mod Framing
pub mod Versions
use semantic_echo.Base.{
  ℕ, zero, suc, ◌+◌, ◌-◌, ◌*◌, ◌/◌, ◌%◌, ◌≡◌, refl, Bool, true, false, not, ◌&&◌, ◌||◌, List, [],
  ◌∷◌, ◌++◌, Option, none, some, arith, if◌then◌else◌, ltb, leb, ◌==◌, length, take, drop,
  get_elem?,
}
use semantic_echo.Base.Text.{Bytes, codes, bytes_eq}
use semantic_echo.Net.Print.{ip_string}
use semantic_echo.Net.Hostport.{join_host_port}
use semantic_echo.Strconv.{itoa, ℤ, pos, atoi}
use semantic_echo.Strings.{fields, trim_newline}
use semantic_echo.Net.{parse_ip}

abbrev pub Reader : Type 0
Reader = List Bytes

-- Every byte that is still to be read.
unfoldable pub pending : Reader → Bytes
pending [] = []
pending (c ∷ cs) = c ++ pending cs

-- net.TCPAddr
pub record TcpAddr : Type 0 where
  pub ip : Bytes
  pub port : ℤ

-- `TCPAddr.String`, which net/http takes for the remote address of a request.
unfoldable pub tcp_string : TcpAddr → Bytes
tcp_string a = join_host_port (ip_string a.ip) (itoa a.port)

-- "\r\n\r\n\x00\r\nQUIT\n"
abbrev pub proxy_v2_signature : Bytes
proxy_v2_signature = 13 ∷ 10 ∷ 13 ∷ 10 ∷ 0 ∷ 13 ∷ 10 ∷ b'Q' ∷ b'U' ∷ b'I' ∷ b'T' ∷ 10 ∷ []

abbrev pub proxy_v1_prefix : Bytes
proxy_v1_prefix = codes "PROXY "

-- What a call that reads from the connection returns: `errNoProxyHeader` is `none`.
abbrev pub Outcome : Type 0
Outcome = Option TcpAddr × Reader

-- `readFull`: reads until the buffer is full or a read fails. The number is what the buffer still
-- lacks; a read takes what the next chunk has, as far as it fits.
unfoldable pub read_full : Reader → ℕ → Bytes → Bool × Bytes × Reader
read_full r zero got = (true, got, r)
read_full [] (suc n) got = (false, got, [])
read_full (c ∷ cs) (suc n) got =
    let more = read_full cs (suc n - length c) (got ++ c) in
    if leb (length c) (suc n) then more else (true, got ++ take (suc n) c, drop (suc n) c ∷ cs)

-- `ReadString('\n')`: the bytes up to the newline and with it, and those behind it.
unfoldable pub read_line : Bytes → Option (Bytes × Bytes)
read_line [] = none
read_line (c ∷ s) =
    if c == 10
    then some (c ∷ [], s)
    else elim (read_line s) [ none ↦ none | some (line, rest) ↦ some (c ∷ line, rest) ]

abbrev with_ip : Option Bytes → ℤ → Option TcpAddr
with_ip none port = none
with_ip (some ip) port = some (record { ip = ip; port = port })

-- The fields of a v1 line, "PROXY TCP4 <src> <dst> <sport> <dport>": six at least.
unfoldable pub v1_address : List Bytes → Option TcpAddr
v1_address (_ ∷ _ ∷ src ∷ _ ∷ sport ∷ _ ∷ _) = elim (atoi sport) [
  | none ↦ none
  | some port ↦ with_ip (parse_ip src) port
]
v1_address _ = none

unfoldable pub read_proxy_v1 : Reader → Outcome
unfolding read_line v1_address
read_proxy_v1 r = elim (read_line (pending r)) [
  | none ↦ (none, [])
  | some (line, rest) ↦ (v1_address (fields (trim_newline line)), rest ∷ [])
]

-- `binary.BigEndian.Uint16(b[i:i+2])`
unfoldable pub uint16 : Bytes → ℕ → ℕ
uint16 b i = elim (drop i b) [ h ∷ l ∷ _ ↦ h * 256 + l | _ ↦ 0 ]

-- `b[i]`
unfoldable pub byte_at : Bytes → ℕ → ℕ
byte_at b i = elim (get_elem? b i) [ none ↦ 0 | some v ↦ v ]

-- What the header of 16 bytes and the address block behind it say.
unfoldable pub v2_address : Bytes → Bytes → Option TcpAddr
unfolding byte_at uint16
v2_address header body =
    if not (byte_at header 12 / 16 == 2) || not (byte_at header 12 % 16 == 1)
    then none
    else if byte_at header 13 == 0x11
    then (if ltb (length body) 12
        then none
        else some (record { ip = take 4 body; port = pos (uint16 body 8) }))
    else if byte_at header 13 == 0x21
    then (if ltb (length body) 36
        then none
        else some (record { ip = take 16 body; port = pos (uint16 body 32) }))
    else none

unfoldable pub read_proxy_v2 : Reader → Outcome
read_proxy_v2 r =
    let (full, header, r') = read_full r 16 [] in
    if not full
    then (none, r')
    else let (full', body, r'') = read_full r' (uint16 header 14) [] in
      if not full' then (none, r'') else (v2_address header body, r'')

-- `Peek` leaves the bytes where they are; it fails where fewer than 12 can be had.
unfoldable pub read_proxy_header : Reader → Outcome
unfolding read_proxy_v1 read_proxy_v2
read_proxy_header r =
    let prefix = take 12 (pending r) in
    if ltb (length prefix) 12
    then (none, r)
    else if bytes_eq prefix proxy_v2_signature
    then read_proxy_v2 r
    else if bytes_eq (take 6 prefix) proxy_v1_prefix
    then read_proxy_v1 r
    else (none, r)

-- `proxyConn`: what is left of the stream, and the address that a header carried.
pub record ProxyConn : Type 0 where
  pub peer : TcpAddr
  pub reader : Reader
  pub remote : Option TcpAddr

unfoldable pub new_proxy_conn : TcpAddr → Reader → ProxyConn
new_proxy_conn peer r =
    let (remote, r') = read_proxy_header r in record { peer = peer; reader = r'; remote = remote }

-- `proxyListener.Accept`, of what the listener below accepts; none is an error.
unfoldable pub accept : Option (TcpAddr × Reader) → Option ProxyConn
unfolding new_proxy_conn
accept none = none
accept (some (peer, r)) = some (new_proxy_conn peer r)

unfoldable pub remote_addr : ProxyConn → TcpAddr
remote_addr c = elim c.remote [ none ↦ c.peer | some address ↦ address ]
