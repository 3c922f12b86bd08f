-- ===== src/Proxy/Header.antt =====
-- What `readProxyHeader` leaves of the stream.
use semantic_echo.Base.{
  ℕ, zero, suc, ◌<◌, ◌≡◌, sym, ap, ◌∙◌, [], ◌∷◌, ◌++◌, none, ◌⊎◌, inl, inr, arith, length, take,
  drop, take-append-drop, take-take_le,
}
use semantic_echo.Base.Text.{Bytes, bytes_eq_iff}
use semantic_echo.Proxy.{
  Reader, pending, read_proxy_header, new_proxy_conn, remote_addr, TcpAddr, proxy_v2_signature,
  proxy_v1_prefix,
}

abbrev pub Begins : Bytes → Bytes → Type 0
Begins s p = (rest : Bytes) × (p ≡ s ++ rest)

-- Neither header: fewer than 12 bytes arrive, or what arrives begins like none.
abbrev pub NoHeader : Reader → Type 0
NoHeader r =
    (length (pending r) < 12)
    ⊎ ((¬ Begins proxy_v2_signature (pending r)) × (¬ Begins proxy_v1_prefix (pending r)))

pub Begins-take : (n : ℕ) (s p : Bytes) → take n p ≡ s → Begins s p
Begins-take n s p e = (drop n p, sym (take-append-drop n p) ∙ ap (λ (t : Bytes). t ++ drop n p) e)

take_short_lt : (n : ℕ) (p : Bytes) → length p < n → length (take n p) < n
take_short_lt zero p h = elim h [ ]
take_short_lt (suc n) [] h = omega arith
take_short_lt (suc n) (x ∷ p) h = omega (arith, take_short_lt n p (omega arith))

pub read_proxy_header_untouched : (r : Reader) → NoHeader r → read_proxy_header r ≡ (none, r)
unfolding read_proxy_header
read_proxy_header_untouched r (inl few) = ground (arith, take_short_lt 12 (pending r) few)
read_proxy_header_untouched r (inr (no_v2, no_v1)) =
    let p = pending r in
    ground (
      arith,
      bytes_eq_iff (take 12 p) proxy_v2_signature,
      bytes_eq_iff (take 6 (take 12 p)) proxy_v1_prefix,
      λ (e : take 12 p ≡ proxy_v2_signature). no_v2 (Begins-take 12 _ p e),
      λ (e : take 6 (take 12 p) ≡ proxy_v1_prefix).
          no_v1 (Begins-take 6 _ p (sym (take-take_le 6 12 p (omega arith)) ∙ e)),
    )

-- A connection without a header passes through untouched: if fewer than 12 bytes arrive before the
-- deadline, or the bytes begin neither with the v2 signature nor with "PROXY ", then the reader is
-- as it was and the connection reports its own peer.
pub new_proxy_conn_untouched :
    (peer : TcpAddr) (r : Reader)
    → NoHeader r
    → ((new_proxy_conn peer r).reader ≡ r) × (remote_addr (new_proxy_conn peer r) ≡ peer)
unfolding new_proxy_conn remote_addr
new_proxy_conn_untouched peer r h =
    let e = read_proxy_header_untouched r h in (rw e, rw (e, new_proxy_conn))
