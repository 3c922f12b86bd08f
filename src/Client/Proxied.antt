-- ===== src/Client/Proxied.antt =====
-- The whole way of an address: a proxy writes it into a header, the page server reads it back from
-- there, and the page asks for it.
use semantic_echo.Base.{
  ℕ, ◌<◌, ◌^◌, ◌≡◌, refl, ap, ◌∙◌, [], ◌∷◌, ◌++◌, some, inl, inr, arith, length, All,
}
use semantic_echo.Base.Text.{Bytes}
use semantic_echo.Net.{colon, to_v4}
use semantic_echo.Net.Print.{print_v4, ip_string}
use semantic_echo.Net.Dotted.{quad}
use semantic_echo.Net.Hostport.{join_host_port}
use semantic_echo.Net.Hostport.Cutting.{Lacks, IsPlain, contains-Lacks}
use semantic_echo.Strconv.{pos, itoa, print_nat}
use semantic_echo.Strconv.RoundTrip.{IsDigit, print_nat-IsDigit}
use semantic_echo.Proxy.{
  Reader, pending, TcpAddr, tcp_string, read_proxy_header, new_proxy_conn, remote_addr,
}
use semantic_echo.Proxy.Versions.{v2_block, v2_frame, read_proxy_header_v2}
use semantic_echo.Address.{address_of}
use semantic_echo.Address.Spellings.{IsDotted, IsDotted-IsPlain, print_v4-IsDotted}
use semantic_echo.Client.{Request, client_address}
use semantic_echo.Client.Agreement.{client_address-address_of}

IsDotted-IsDigit : (s : Bytes) → All IsDigit s → IsDotted s
IsDotted-IsDigit [] h = tt
IsDotted-IsDigit (c ∷ s) (h, hs) = (omega arith, IsDotted-IsDigit s hs)

IsPlain-print_nat : (n : ℕ) → IsPlain (print_nat n)
IsPlain-print_nat n =
    IsDotted-IsPlain (print_nat n) (IsDotted-IsDigit (print_nat n) (print_nat-IsDigit n))

percent_free : (s : Bytes) → IsDotted s → Lacks b'%' s
percent_free [] h = tt
percent_free (c ∷ s) (h, hs) = (omega arith, percent_free s hs)

join_dotted : (s port : Bytes) → IsDotted s → join_host_port s port ≡ s ++ colon ∷ port
unfolding join_host_port
join_dotted s port h =
    rw
      (
        contains-Lacks colon s (IsDotted-IsPlain s h).no_colon,
        contains-Lacks b'%' s (percent_free s h),
      )
      refl

remote_addr_header :
    (peer address : TcpAddr) (r : Reader)
    → (read_proxy_header r).0 ≡ some address
    → remote_addr (new_proxy_conn peer r) ≡ address
unfolding new_proxy_conn remote_addr
remote_addr_header peer address r e = rw e refl

module _ (a b c d : ℕ) (ha : a < 256) (hb : b < 256) (hc : c < 256) (hd : d < 256) where
  tcp_string-quad :
      (port : ℕ)
      → tcp_string (record { ip = quad a b c d; port = pos port })
        ≡ print_v4 (quad a b c d) ++ colon ∷ print_nat port
  unfolding tcp_string ip_string to_v4 itoa
  tcp_string-quad port =
      join_dotted (print_v4 (quad a b c d)) (print_nat port) (print_v4-IsDotted a b c d ha hb hc hd)

  -- Behind the proxy a page is answered for the client's own address: on a connection that opens with
  -- a v2 header of TCP over IPv4 from a.b.c.d, in any chunks and whatever else the header says, a
  -- request without forwarding headers is answered for the address that the endpoints write down
  -- when the same client reaches them over UDP.
  pub client_address_proxied :
      (peer : TcpAddr) (r : Reader) (dst extra rest : Bytes) (sport dport : ℕ) (req : Request)
      (udp : Bytes)
      → length dst ≡ 4
      → length (v2_block (quad a b c d) dst sport dport extra) < 2 ^ 16
      → pending r ≡ v2_frame 0x21 0x11 (v2_block (quad a b c d) dst sport dport extra) ++ rest
      → req.fly_client_ip ≡ []
      → req.x_forwarded_for ≡ []
      → req.remote_addr ≡ tcp_string (remote_addr (new_proxy_conn peer r))
      → IsPlain udp
      → client_address req ≡ address_of (print_v4 (quad a b c d) ++ colon ∷ udp)
  client_address_proxied peer r dst extra rest sport dport req udp four small sent e f remote p =
      let (read, left) =
        read_proxy_header_v2 r 0x11 4 (quad a b c d) dst extra rest sport dport (inl (refl, refl))
          refl four small sent in
      let named : req.remote_addr ≡ print_v4 (quad a b c d) ++ colon ∷ print_nat sport =
        remote ∙ ap tcp_string (remote_addr_header peer _ r read) ∙ tcp_string-quad sport in
      (client_address-address_of a b c d ha hb hc hd req [] (print_nat sport) udp
        (IsPlain-print_nat sport) p (inr (inr (e, f, named)))).0
