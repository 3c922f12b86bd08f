-- ===== src/Examples/Proxy.antt =====
-- Headers of both versions, cut into chunks, and streams without one.
use semantic_echo.Base.{◌≡◌, refl, [], ◌∷◌, ◌++◌, none, some, inl, arith, append-nil}
use semantic_echo.Base.Text.{Bytes, codes}
use semantic_echo.Strconv.{pos}
use semantic_echo.Net.{parse_ip, family, v4_fields}
use semantic_echo.Strconv.{print_nat}
use semantic_echo.Proxy.{
  Reader, pending, TcpAddr, proxy_v2_signature, read_proxy_header, new_proxy_conn, remote_addr,
}
use semantic_echo.Proxy.Header.{NoHeader, new_proxy_conn_untouched}
use semantic_echo.Proxy.Framing.{Left, read_proxy_header-Left}
use semantic_echo.Proxy.Versions.{v2_block, v2_frame, read_proxy_header_v2, read_proxy_header_local}
use semantic_echo.Proxy.Versions.Text.{v1_line, read_proxy_header_v1}
use semantic_echo.Proxy.{tcp_string}
use semantic_echo.Net.{colon}
use semantic_echo.Net.Print.{print_v4}
use semantic_echo.Net.Dotted.{quad}
use semantic_echo.Address.{address_of}
use semantic_echo.Client.{Request, client_address}
use semantic_echo.Client.Proxied.{client_address_proxied}
use semantic_echo.Examples.Address.{udp, udp-IsPlain}

-- 10.0.0.7:50123 to 10.0.0.1:443, and the first bytes of a TLS record.
abbrev block : Bytes
block = v2_block (10 ∷ 0 ∷ 0 ∷ 7 ∷ []) (10 ∷ 0 ∷ 0 ∷ 1 ∷ []) 50123 443 []

abbrev hello : Bytes
hello = 22 ∷ 3 ∷ 1 ∷ []

abbrev framed : Reader
framed = proxy_v2_signature ∷ (0x21 ∷ 0x11 ∷ 0 ∷ 12 ∷ []) ∷ (block ++ hello) ∷ []

framed-pending : pending framed ≡ v2_frame 0x21 0x11 block ++ hello
unfolding pending
framed-pending = refl

read_proxy_header_v2_example :
    ((read_proxy_header framed).0 ≡ some (record { ip = 10 ∷ 0 ∷ 0 ∷ 7 ∷ []; port = pos 50123 }))
    × (pending (read_proxy_header framed).1 ≡ hello)
read_proxy_header_v2_example =
    read_proxy_header_v2 framed 0x11 4 (10 ∷ 0 ∷ 0 ∷ 7 ∷ []) (10 ∷ 0 ∷ 0 ∷ 1 ∷ []) [] hello 50123
      443 (inl (refl, refl)) refl refl (omega arith) framed-pending

read_proxy_header-Left_example : Left (pending framed) (pending (read_proxy_header framed).1)
read_proxy_header-Left_example = read_proxy_header-Left framed

-- A health check.
abbrev local : Reader
local = (proxy_v2_signature ++ 0x20 ∷ 0 ∷ 0 ∷ 0 ∷ []) ∷ hello ∷ []

local-pending : pending local ≡ v2_frame 0x20 0 [] ++ hello
unfolding pending
local-pending = refl

read_proxy_header_local_example :
    ((read_proxy_header local).0 ≡ none) × (pending (read_proxy_header local).1 ≡ hello)
read_proxy_header_local_example =
    read_proxy_header_local local 0x20 0 [] hello (inl (omega arith)) (omega arith) local-pending

-- A client that sends three bytes.
few : NoHeader (hello ∷ [])
unfolding pending
few = inl (omega arith)

abbrev peer : TcpAddr
peer = record { ip = 10 ∷ 0 ∷ 0 ∷ 9 ∷ []; port = pos 40000 }

new_proxy_conn_untouched_example :
    ((new_proxy_conn peer (hello ∷ [])).reader ≡ hello ∷ [])
    × (remote_addr (new_proxy_conn peer (hello ∷ [])) ≡ peer)
new_proxy_conn_untouched_example = new_proxy_conn_untouched peer (hello ∷ []) few

abbrev source : Bytes
source = codes "10.0.0.7"

abbrev source_ip : Bytes
source_ip = 0 ∷ 0 ∷ 0 ∷ 0 ∷ 0 ∷ 0 ∷ 0 ∷ 0 ∷ 0 ∷ 0 ∷ 255 ∷ 255 ∷ 10 ∷ 0 ∷ 0 ∷ 7 ∷ []

source-parse_ip : parse_ip source ≡ some source_ip
unfolding parse_ip family v4_fields
source-parse_ip = refl

abbrev text_line : Bytes
text_line = v1_line (codes "TCP4") source (codes "10.0.0.1") (print_nat 50123) (codes "443")

text_line-pending : pending ((text_line ++ 13 ∷ 10 ∷ hello) ∷ []) ≡ text_line ++ 13 ∷ 10 ∷ hello
unfolding pending
text_line-pending = append-nil (text_line ++ 13 ∷ 10 ∷ hello)

read_proxy_header_v1_example :
    ((read_proxy_header ((text_line ++ 13 ∷ 10 ∷ hello) ∷ [])).0
      ≡ some (record { ip = source_ip; port = pos 50123 }))
    × (pending (read_proxy_header ((text_line ++ 13 ∷ 10 ∷ hello) ∷ [])).1 ≡ hello)
read_proxy_header_v1_example =
    read_proxy_header_v1 (codes "TCP4") source (codes "10.0.0.1") (codes "443") 50123 (omega arith)
      (omega arith) (omega arith) (omega arith) ((text_line ++ 13 ∷ 10 ∷ hello) ∷ []) source_ip
      hello (omega arith) source-parse_ip text_line-pending

-- The page request that arrives behind the header.
abbrev page_request : Request
page_request = record {
  fly_client_ip = [];
  x_forwarded_for = [];
  remote_addr = tcp_string (remote_addr (new_proxy_conn peer framed));
}

client_address_proxied_example :
    client_address page_request ≡ address_of (print_v4 (quad 10 0 0 7) ++ colon ∷ udp)
client_address_proxied_example =
    client_address_proxied 10 0 0 7 (omega arith) (omega arith) (omega arith) (omega arith) peer
      framed (10 ∷ 0 ∷ 0 ∷ 1 ∷ []) [] hello 50123 443 page_request udp refl (omega arith)
      framed-pending refl refl refl udp-IsPlain
