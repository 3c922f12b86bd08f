-- ===== src/Client/Agreement.antt =====
-- `clientAddress` of the page server against `addressOf` of the endpoints.
use semantic_echo.Base.{
  ℕ, ◌≤◌, ◌<◌, ◌≡◌, ◌≢◌, refl, sym, ap, ◌∙◌, false, [], ◌∷◌, ◌++◌, ◌==◌, arith, ◌⊎◌, inl, inr,
}
use semantic_echo.Base.Text.{Bytes}
use semantic_echo.Strings.{space_width, split, all_space, trim_left, trim_right, trim_space}
use semantic_echo.Net.{colon}
use semantic_echo.Net.Print.{print_v4}
use semantic_echo.Net.Dotted.{quad, mapped}
use semantic_echo.Net.Hostport.Cutting.{IsPlain}
use semantic_echo.Address.{normalize_address, address_of}
use semantic_echo.Address.Spellings.{
  IsDotted, canonical, print_v4-IsDotted, print_v4-ne-nil, normalize_address-print_v4,
  address_of_dual_stack,
}
use semantic_echo.Client.{Request, first_piece, client_address}

space_width_dotted : (c : ℕ) (s : Bytes) → (b'.' ≤ c) × (c ≤ b'9') → space_width (c ∷ s) ≡ 0
unfolding space_width
space_width_dotted c [] h = ground arith
space_width_dotted c (d ∷ []) h = ground arith
space_width_dotted c (d ∷ e ∷ s) h = ground arith

trim_right_dotted : (s : Bytes) → IsDotted s → trim_right s ≡ s
unfolding trim_right all_space
trim_right_dotted [] h = refl
trim_right_dotted (c ∷ s) (h, hs) =
    rw (space_width_dotted c s h, all_space) (ap (◌∷◌ c) (trim_right_dotted s hs))

trim_space_dotted : (s : Bytes) → IsDotted s → trim_space s ≡ s
unfolding trim_space trim_left
trim_space_dotted [] h = refl
trim_space_dotted (c ∷ s) (h, hs) =
    rw (space_width_dotted c s h, trim_left) (trim_right_dotted (c ∷ s) (h, hs))

split_first : (s rest : Bytes) → IsDotted s → split b',' (s ++ b',' ∷ rest) ≡ s ∷ split b',' rest
unfolding split
split_first [] rest h = refl
split_first (c ∷ s) rest (h, hs) =
    let other : (c == b',') ≡ false = ground arith in rw (other, split_first s rest hs) refl

first_piece_dotted : (s rest : Bytes) → IsDotted s → first_piece (s ++ b',' ∷ rest) ≡ s
unfolding first_piece
first_piece_dotted s rest h = rw (split_first s rest h, first_piece) refl

client_address_fly :
    (r : Request) (s : Bytes)
    → s ≢ []
    → r.fly_client_ip ≡ s
    → client_address r ≡ normalize_address s
unfolding client_address
client_address_fly r [] n e = absurd (n refl)
client_address_fly r (c ∷ s) n e = rw e refl

client_address_forwarded :
    (r : Request) (s rest : Bytes)
    → s ≢ []
    → IsDotted s
    → r.fly_client_ip ≡ []
    → r.x_forwarded_for ≡ s ++ b',' ∷ rest
    → client_address r ≡ normalize_address s
unfolding client_address
client_address_forwarded r [] rest n d e f = absurd (n refl)
client_address_forwarded r (c ∷ s) rest n d e f =
    rw (e, f) (rw (f, first_piece_dotted (c ∷ s) rest d, trim_space_dotted (c ∷ s) d) refl)

client_address_direct :
    (r : Request) (remote : Bytes)
    → r.fly_client_ip ≡ []
    → r.x_forwarded_for ≡ []
    → r.remote_addr ≡ remote
    → client_address r ≡ address_of remote
unfolding client_address
client_address_direct r remote e f g = rw (e, f, g) refl

-- A request names the client by this text: in the header of the proxy, as the first of the
-- forwarded addresses, or by the connection itself.
abbrev pub Names : Request → Bytes → Bytes → Bytes → Type 0
Names r text rest port =
    (r.fly_client_ip ≡ text)
    ⊎ ((r.fly_client_ip ≡ []) × (r.x_forwarded_for ≡ text ++ b',' ∷ rest))
    ⊎ ((r.fly_client_ip ≡ []) × (r.x_forwarded_for ≡ []) × (r.remote_addr ≡ text ++ colon ∷ port))

module _ (a b c d : ℕ) (ha : a < 256) (hb : b < 256) (hc : c < 256) (hd : d < 256) where
  client_address-canonical :
      (r : Request) (rest port : Bytes)
      → IsPlain port
      → Names r (print_v4 (quad a b c d)) rest port
      → client_address r ≡ canonical a b c d ha hb hc hd
  client_address-canonical r rest port p (inl e) =
      client_address_fly r (print_v4 (quad a b c d)) (print_v4-ne-nil a b c d ha hb hc hd) e
      ∙ normalize_address-print_v4 a b c d ha hb hc hd
  client_address-canonical r rest port p (inr (inl (e, f))) =
      client_address_forwarded r (print_v4 (quad a b c d)) rest
        (print_v4-ne-nil a b c d ha hb hc hd) (print_v4-IsDotted a b c d ha hb hc hd) e f
      ∙ normalize_address-print_v4 a b c d ha hb hc hd
  client_address-canonical r rest port p (inr (inr (e, f, g))) =
      client_address_direct r (print_v4 (quad a b c d) ++ colon ∷ port) e f g
      ∙ (address_of_dual_stack a b c d ha hb hc hd port p).0

  -- The page is answered for the address under which the endpoints wrote its client down: for any
  -- client a.b.c.d that the request names, in the proxy's header, as the first of several forwarded
  -- addresses, or by its own connection, `clientAddress` is what `addressOf` makes of the client's
  -- UDP address, in dotted form and mapped into IPv6, for any port texts with neither colon nor
  -- bracket.
  pub client_address-address_of :
      (r : Request) (rest port udp : Bytes)
      → IsPlain port
      → IsPlain udp
      → Names r (print_v4 (quad a b c d)) rest port
      → (client_address r ≡ address_of (print_v4 (quad a b c d) ++ colon ∷ udp))
        × (client_address r
            ≡ address_of (b'[' ∷ (mapped (print_v4 (quad a b c d)) ++ b']' ∷ colon ∷ udp)))
  client_address-address_of r rest port udp p q n =
      let e = client_address-canonical r rest port p n in
      let (dotted, bracketed) = address_of_dual_stack a b c d ha hb hc hd udp q in
      (e ∙ sym dotted, e ∙ sym bracketed)
