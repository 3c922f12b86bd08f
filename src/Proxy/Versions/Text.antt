-- ===== src/Proxy/Versions/Text.antt =====
-- The text header, "PROXY TCP4 <src> <dst> <sport> <dport>\r\n".
use semantic_echo.Base.{
  ℕ, ◌≤◌, ◌<◌, ◌≡◌, ◌≢◌, refl, ap, ◌∙◌, true, false, [], ◌∷◌, ◌++◌, some, arith, length, take,
  append_assoc, append-nil, length-append, ◌^◌, All, All-append, length-take,
}
use semantic_echo.Base.Text.{Bytes, codes, bytes_eq}
use semantic_echo.Net.{parse_ip}
use semantic_echo.Strings.{flush, space_width, fields_from, fields, trim_newline}
use semantic_echo.Strconv.{pos, print_nat}
use semantic_echo.Strconv.RoundTrip.{IsDigit, print_nat-IsDigit, print_nat-ne-nil, atoi-print_nat}
use semantic_echo.Proxy.{
  Reader, pending, proxy_v1_prefix, proxy_v2_signature, read_line, read_proxy_v1, read_proxy_header,
  v1_address,
}

-- Graphic ASCII.
abbrev pub IsGraphic : ℕ → Type 0
IsGraphic c = (33 ≤ c) × (c ≤ 126)

-- One or more graphic characters.
abbrev pub IsWord : Bytes → Type 0
IsWord [] = ⊥
IsWord (c ∷ s) = IsGraphic c × All IsGraphic s

space_width_graphic : (c : ℕ) (s : Bytes) → IsGraphic c → space_width (c ∷ s) ≡ 0
unfolding space_width
space_width_graphic c [] h = ground arith
space_width_graphic c (d ∷ []) h = ground arith
space_width_graphic c (d ∷ e ∷ s) h = ground arith

space_width_blank : (s : Bytes) → space_width (32 ∷ s) ≡ 1
unfolding space_width
space_width_blank [] = refl
space_width_blank (d ∷ []) = refl
space_width_blank (d ∷ e ∷ s) = refl

fields_from_word :
    (w s cur : Bytes)
    → All IsGraphic w
    → fields_from (w ++ 32 ∷ s) 0 cur ≡ flush (cur ++ w) (fields_from s 0 [])
unfolding fields_from
fields_from_word [] s cur h = rw (space_width_blank s, append-nil cur, fields_from)
fields_from_word (c ∷ w) s cur h =
    rw (space_width_graphic c (w ++ 32 ∷ s) h.0, fields_from)
      (fields_from_word w s (cur ++ c ∷ []) h.1
        ∙ ap (λ (t : Bytes). flush t (fields_from s 0 [])) (append_assoc cur (c ∷ []) w))

fields_from_last : (w cur : Bytes) → All IsGraphic w → fields_from w 0 cur ≡ flush (cur ++ w) []
unfolding fields_from
fields_from_last [] cur h = rw append-nil
fields_from_last (c ∷ w) cur h =
    rw (space_width_graphic c w h.0, fields_from)
      (fields_from_last w (cur ++ c ∷ []) h.1
        ∙ ap (λ (t : Bytes). flush t []) (append_assoc cur (c ∷ []) w))

fields-word : (w s : Bytes) → IsWord w → fields_from (w ++ 32 ∷ s) 0 [] ≡ w ∷ fields_from s 0 []
fields-word [] s h = elim h [ ]
fields-word (c ∷ w) s h = fields_from_word (c ∷ w) s [] h

fields-last : (w : Bytes) → IsWord w → fields_from w 0 [] ≡ w ∷ []
fields-last [] h = elim h [ ]
fields-last (c ∷ w) h = fields_from_last (c ∷ w) [] h

-- Graphic characters and blanks.
abbrev IsLine : Bytes → Type 0
IsLine = All (λ c. 32 ≤ c)

trim_newline_crlf : (s : Bytes) → IsLine s → trim_newline (s ++ 13 ∷ 10 ∷ []) ≡ s
unfolding trim_newline
trim_newline_crlf [] h = refl
trim_newline_crlf (c ∷ []) h = ground arith
trim_newline_crlf (c ∷ d ∷ s) h = rw (trim_newline_crlf (d ∷ s) h.1, trim_newline)

read_line_crlf :
    (s rest : Bytes) → IsLine s → read_line (s ++ 13 ∷ 10 ∷ rest) ≡ some (s ++ 13 ∷ 10 ∷ [], rest)
unfolding read_line
read_line_crlf [] rest h = refl
read_line_crlf (c ∷ s) rest h = ground (arith, read_line_crlf s rest h.1)

All-IsLine : (s : Bytes) → All IsGraphic s → IsLine s
All-IsLine [] h = tt
All-IsLine (c ∷ s) h = (omega arith, All-IsLine s h.1)

IsWord-IsLine : (s : Bytes) → IsWord s → IsLine s
IsWord-IsLine [] h = tt
IsWord-IsLine (c ∷ s) h = All-IsLine (c ∷ s) h

IsLine-join : (s t : Bytes) → IsWord s → IsLine t → IsLine (s ++ 32 ∷ t)
IsLine-join s t h k = All-append _ s (32 ∷ t) (IsWord-IsLine s h) (omega arith, k)

-- A run of digits is a word.
IsDigit-IsGraphic : (s : Bytes) → All IsDigit s → All IsGraphic s
IsDigit-IsGraphic [] h = tt
IsDigit-IsGraphic (c ∷ s) h = (omega arith, IsDigit-IsGraphic s h.1)

IsWord-digits : (s : Bytes) → s ≢ [] → All IsDigit s → IsWord s
IsWord-digits [] n h = n refl
IsWord-digits (c ∷ s) n h = IsDigit-IsGraphic (c ∷ s) h

IsWord-print_nat : (n : ℕ) → IsWord (print_nat n)
IsWord-print_nat n = IsWord-digits (print_nat n) (print_nat-ne-nil n) (print_nat-IsDigit n)

-- The line behind "PROXY ", without its end.
abbrev pub v1_words : Bytes → Bytes → Bytes → Bytes → Bytes → Bytes
v1_words proto src dst sport dport = proto ++ 32 ∷ (src ++ 32 ∷ (dst ++ 32 ∷ (sport ++ 32 ∷ dport)))

abbrev pub v1_line : Bytes → Bytes → Bytes → Bytes → Bytes → Bytes
v1_line proto src dst sport dport = codes "PROXY " ++ v1_words proto src dst sport dport

module _ (proto src dst dport : Bytes) (sport : ℕ) (hp : IsWord proto) (hs : IsWord src)
    (hd : IsWord dst) (hq : IsWord dport) where
  abbrev text : Bytes
  text = v1_line proto src dst (print_nat sport) dport

  text-IsLine : IsLine (v1_line proto src dst (print_nat sport) dport)
  text-IsLine =
      All-append _ (codes "PROXY ") (v1_words proto src dst (print_nat sport) dport) (omega arith) (
        IsLine-join proto _ hp (
          IsLine-join src _ hs (
            IsLine-join dst _ hd (
              IsLine-join (print_nat sport) dport (IsWord-print_nat sport)
                (IsWord-IsLine dport hq)))))

  text-fields :
      fields (v1_line proto src dst (print_nat sport) dport)
      ≡ codes "PROXY" ∷ proto ∷ src ∷ dst ∷ print_nat sport ∷ dport ∷ []
  unfolding fields
  text-fields =
      fields-word (codes "PROXY") (v1_words proto src dst (print_nat sport) dport) (omega arith)
      ∙ ap (◌∷◌ (codes "PROXY")) (
          fields-word proto (src ++ 32 ∷ (dst ++ 32 ∷ (print_nat sport ++ 32 ∷ dport))) hp
          ∙ ap (◌∷◌ proto) (
              fields-word src (dst ++ 32 ∷ (print_nat sport ++ 32 ∷ dport)) hs
              ∙ ap (◌∷◌ src) (
                  fields-word dst (print_nat sport ++ 32 ∷ dport) hd
                  ∙ ap (◌∷◌ dst) (
                      fields-word (print_nat sport) dport (IsWord-print_nat sport)
                      ∙ ap (◌∷◌ (print_nat sport)) (fields-last dport hq)))))

  line_long :
      (rest : Bytes) → 12 ≤ length (v1_line proto src dst (print_nat sport) dport ++ 13 ∷ 10 ∷ rest)
  line_long rest = omega (
    arith,
    length-append (v1_words proto src dst (print_nat sport) dport) (13 ∷ 10 ∷ rest),
    length-append proto (32 ∷ (src ++ 32 ∷ (dst ++ 32 ∷ (print_nat sport ++ 32 ∷ dport)))),
    length-append src (32 ∷ (dst ++ 32 ∷ (print_nat sport ++ 32 ∷ dport))),
    length-append dst (32 ∷ (print_nat sport ++ 32 ∷ dport)),
    length-append (print_nat sport) (32 ∷ dport),
  )

  module _ (r : Reader) (ip rest : Bytes) (small : sport < 2 ^ 63) (known : parse_ip src ≡ some ip)
      (sent : pending r ≡ v1_line proto src dst (print_nat sport) dport ++ 13 ∷ 10 ∷ rest) where
    read_proxy_v1_line : read_proxy_v1 r ≡ (some (record { ip = ip; port = pos sport }), rest ∷ [])
    unfolding read_proxy_v1 v1_address
    read_proxy_v1_line =
        rw (sent, read_line_crlf text rest text-IsLine, read_proxy_v1)
          (rw (trim_newline_crlf text text-IsLine, text-fields, v1_address)
            (rw (atoi-print_nat sport small, known, v1_address) refl))

    twelve : length (take 12 (pending r)) ≡ 12
    twelve = length-take 12 (pending r) (rw sent (line_long rest))

    no_signature : bytes_eq (take 12 (pending r)) proxy_v2_signature ≡ false
    unfolding bytes_eq
    no_signature = rw sent refl

    prefix_v1 : bytes_eq (take 6 (take 12 (pending r))) proxy_v1_prefix ≡ true
    unfolding bytes_eq
    prefix_v1 = rw sent refl

    header_v1 : read_proxy_header r ≡ read_proxy_v1 r
    unfolding read_proxy_header
    header_v1 = ground (arith, twelve, no_signature, prefix_v1)

    -- A v1 line is read to its end, and its source is what the page server takes for the client:
    -- "PROXY <proto> <src> <dst> <sport> <dport>\r\n" with any words of graphic ASCII for the
    -- protocol, the destination and its port, any source text that `net.ParseIP` knows, any port
    -- below 2 ^ 63 in decimal, in any chunks. The stream goes on directly behind the line.
    pub read_proxy_header_v1 :
        ((read_proxy_header r).0 ≡ some (record { ip = ip; port = pos sport }))
        × (pending (read_proxy_header r).1 ≡ rest)
    unfolding pending
    read_proxy_header_v1 = rw (header_v1, read_proxy_v1_line) (refl, append-nil rest)
