-- ===== src/Proxy/Framing.antt =====
-- Where `readProxyHeader` leaves the stream, against the bytes without their chunks.
use semantic_echo.Base.{
  ℕ, ◌≤◌, ◌<◌, ◌≡◌, ◌≢◌, sym, ap, ◌∙◌, Bool, true, false, [], ◌∷◌, ◌++◌, none, some, ◌⊎◌, inl, inr,
  arith, ◌==◌, if◌then◌else◌, length, take, drop, append-nil, Bool-cases, Option-cases,
  take-take_le, length-take, All,
}
use native.Mathlib.Decide.{dec_le}
use semantic_echo.Base.Text.{Bytes, bytes_eq, bytes_eq_iff}
use semantic_echo.Proxy.{
  Reader, pending, read_full, read_line, read_proxy_v1, read_proxy_v2, read_proxy_header,
  proxy_v2_signature, proxy_v1_prefix, uint16,
}
use semantic_echo.Proxy.Reading.{read_full-Fills, read_full_short}
use semantic_echo.Proxy.Header.{Begins, Begins-take, read_proxy_header_untouched}

-- The length that a v2 header declares for its address block.
abbrev pub declared : Bytes → ℕ
declared s = uint16 (take 16 s) 14

-- What is left of these bytes: all of them where there is no header, what follows the first newline
-- behind "PROXY ", what follows the address block of a v2 header, and nothing where the newline or a
-- part of the block is missing.
pub data Left (s : Bytes) : Bytes → Type 0 where
  no_header :
      (length s < 12) ⊎ ((¬ Begins proxy_v2_signature s) × (¬ Begins proxy_v1_prefix s)) → Left s s
  line :
      (text rest : Bytes)
      → 12 ≤ length s
      → Begins proxy_v1_prefix s
      → All (λ x. x ≢ 10) text
      → s ≡ text ++ 10 ∷ rest
      → Left s rest
  no_newline : 12 ≤ length s → Begins proxy_v1_prefix s → All (λ x. x ≢ 10) s → Left s []
  block :
      Begins proxy_v2_signature s
      → 16 ≤ length s
      → declared s ≤ length (drop 16 s)
      → Left s (drop (declared s) (drop 16 s))
  cut_short :
      Begins proxy_v2_signature s → (length s < 16) ⊎ (length (drop 16 s) < declared s) → Left s []

unterminated_line : (s : Bytes) → read_line s ≡ none → All (λ x. x ≢ 10) s
unfolding read_line
unterminated_line [] e = tt
unterminated_line (c ∷ s) e = elim (Bool-cases (c == 10)) [
  | inl newline ↦ absurd (ground (arith, e, newline))
  | inr other ↦ elim (Option-cases (read_line s)) [
    | inl missing ↦
        ((λ (same : c ≡ 10). absurd (ground (arith, same, other))), unterminated_line s missing)
    | inr (found, e') ↦ absurd (ground (arith, e, other, e'))
  ]
]

first_line :
    (s l rest : Bytes)
    → read_line s ≡ some (l, rest)
    → (text : Bytes) × All (λ x. x ≢ 10) text × (s ≡ text ++ 10 ∷ rest)
unfolding read_line
first_line [] l rest e = absurd (ground arith)
first_line (c ∷ s) l rest e = elim (Bool-cases (c == 10)) [
  | inl newline ↦ ([], tt, ground (arith, e, newline))
  | inr other ↦ elim (Option-cases (read_line s)) [
    | inl missing ↦ absurd (ground (arith, e, other, missing))
    | inr (found, e') ↦
        let (text, plain, cut) = first_line s found.0 found.1 e' in
        (
          c ∷ text,
          ((λ (same : c ≡ 10). absurd (ground (arith, same, other))), plain),
          ground (arith, e, other, e', cut),
        )
  ]
]

read_proxy_v1-Left :
    (r : Reader)
    → 12 ≤ length (pending r)
    → Begins proxy_v1_prefix (pending r)
    → Left (pending r) (pending (read_proxy_v1 r).1)
unfolding read_proxy_v1
read_proxy_v1-Left r long b = elim (Option-cases (read_line (pending r))) [
  | inl missing ↦
      rw (missing, read_proxy_v1)
        (unfold pending in no_newline long b (unterminated_line (pending r) missing))
  | inr ((l, rest), found) ↦
      let (text, plain, cut) = first_line (pending r) l rest found in
      rw (found, read_proxy_v1)
        (unfold pending in rw (append-nil rest) (line text rest long b plain cut))
]

abbrev body_read : Reader → Bool × Bytes × Reader
body_read r = read_full (read_full r 16 []).2 (uint16 (read_full r 16 []).1 14) []

read_proxy_v2-reader :
    (r : Reader)
    → (read_proxy_v2 r).1
      ≡ (if (read_full r 16 []).0 then (body_read r).2 else (read_full r 16 []).2)
unfolding read_proxy_v2
read_proxy_v2-reader r = ground arith

read_proxy_v2-Left :
    (r : Reader)
    → Begins proxy_v2_signature (pending r)
    → Left (pending r) (pending (read_proxy_v2 r).1)
read_proxy_v2-Left r b = elim (dec_le 16 (length (pending r))) [
  | no short ↦
      rw (read_proxy_v2-reader r, read_full_short r 16 [] (omega arith))
        (unfold pending in cut_short b (inl (omega arith)))
  | yes enough ↦
      let f = read_full-Fills r 16 [] enough in
      let r' = (read_full r 16 []).2 in
      let n = uint16 (read_full r 16 []).1 14 in
      let same : n ≡ declared (pending r) = ap (λ (t : Bytes). uint16 t 14) f.buffer in
      elim (dec_le n (length (pending r'))) [
        | yes whole ↦
            let f' = read_full-Fills r' n [] whole in
            rw (read_proxy_v2-reader r, f.full, f'.rest, f.rest, same)
              (block b enough (rw (sym f.rest, sym same) whole))
        | no part ↦
            rw (read_proxy_v2-reader r, f.full, read_full_short r' n [] (omega arith))
              (unfold pending in cut_short b (inr (rw (sym f.rest, sym same) (omega arith))))
      ]
]

Begins-v2 : (p : Bytes) → Begins proxy_v2_signature p → take 12 p ≡ proxy_v2_signature
Begins-v2 p (rest, e) = rw e

Begins-v1 : (p : Bytes) → Begins proxy_v1_prefix p → take 6 (take 12 p) ≡ proxy_v1_prefix
Begins-v1 p (rest, e) = take-take_le 6 12 p (omega arith) ∙ rw e

reader_v2 :
    (r : Reader)
    → 12 ≤ length (pending r)
    → bytes_eq (take 12 (pending r)) proxy_v2_signature ≡ true
    → (read_proxy_header r).1 ≡ (read_proxy_v2 r).1
unfolding read_proxy_header
reader_v2 r long v2 = rw (length-take 12 (pending r) long, v2)

reader_v1 :
    (r : Reader)
    → 12 ≤ length (pending r)
    → bytes_eq (take 12 (pending r)) proxy_v2_signature ≡ false
    → bytes_eq (take 6 (take 12 (pending r))) proxy_v1_prefix ≡ true
    → (read_proxy_header r).1 ≡ (read_proxy_v1 r).1
unfolding read_proxy_header
reader_v1 r long other v1 = rw (length-take 12 (pending r) long, other, v1)

-- Where `readProxyHeader` leaves the stream, however it was cut into chunks. A stream of fewer than 12
-- bytes, or one that begins neither with the v2 signature nor with "PROXY ", is left whole. Of any other
-- stream that begins with "PROXY ", what follows its first newline is left, and nothing if it has none.
-- Of one that begins with the v2 signature, what follows the address block is left, whose length the
-- bytes at 14 and 15 declare, and nothing if the 16 bytes of the header or the block are cut short.
pub read_proxy_header-Left : (r : Reader) → Left (pending r) (pending (read_proxy_header r).1)
read_proxy_header-Left r =
    let p = pending r in
    elim (dec_le 12 (length p)) [
      | no few ↦
          let bare : length p < 12 = omega arith in
          rw (read_proxy_header_untouched r (inl bare)) (no_header (inl bare))
      | yes long ↦ elim (Bool-cases (bytes_eq (take 12 p) proxy_v2_signature)) [
        | inl v2 ↦
            rw (reader_v2 r long v2)
              (read_proxy_v2-Left r (Begins-take 12 _ p ((bytes_eq_iff _ _).0 v2)))
        | inr other ↦ elim (Bool-cases (bytes_eq (take 6 (take 12 p)) proxy_v1_prefix)) [
          | inl v1 ↦
              let six = sym (take-take_le 6 12 p (omega arith)) ∙ (bytes_eq_iff _ _).0 v1 in
              rw (reader_v1 r long other v1) (read_proxy_v1-Left r long (Begins-take 6 _ p six))
          | inr neither ↦
              let no_v2 : ¬ Begins proxy_v2_signature p =
                λ b. absurd (ground (arith, other, (bytes_eq_iff _ _).1 (Begins-v2 p b))) in
              let no_v1 : ¬ Begins proxy_v1_prefix p =
                λ b. absurd (ground (arith, neither, (bytes_eq_iff _ _).1 (Begins-v1 p b))) in
              rw (read_proxy_header_untouched r (inr (no_v2, no_v1)))
                (no_header (inr (no_v2, no_v1)))
        ]
      ]
    ]
