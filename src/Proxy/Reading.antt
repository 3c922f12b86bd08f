-- ===== src/Proxy/Reading.antt =====
-- `readFull` of proxy.go, against the bytes of the stream without their chunks.
use semantic_echo.Base.{
  ℕ, zero, suc, ◌-◌, ◌≤◌, ◌<◌, ◌≡◌, refl, sym, ◌∙◌, true, false, [], ◌∷◌, ◌++◌, arith, leb, length,
  take, drop, append_assoc, append-nil, length-append, Bool-cases, inl, inr, take-append_ge,
  drop-append_ge, take-append_le, drop-append_le,
}
use semantic_echo.Base.Text.{Bytes}
use semantic_echo.Proxy.{Reader, pending, read_full}

-- A read that fills the buffer: its bytes come next in the stream, and the rest follows.
pub record Fills (r : Reader) (n : ℕ) (got : Bytes) : Type 0 where
  pub full : (read_full r n got).0 ≡ true
  pub buffer : (read_full r n got).1 ≡ got ++ take n (pending r)
  pub rest : pending (read_full r n got).2 ≡ drop n (pending r)

pub read_full-Fills : (r : Reader) (n : ℕ) (got : Bytes) → n ≤ length (pending r) → Fills r n got
unfolding read_full pending
read_full-Fills r zero got h = record { full = refl; buffer = sym (append-nil got); rest = refl }
read_full-Fills [] (suc n) got h = elim h [ ]
read_full-Fills (c ∷ cs) (suc n) got h = elim (Bool-cases (leb (length c) (suc n))) [
  | inl whole ↦
      let fits : length c ≤ suc n = ground arith in
      let ih =
        read_full-Fills cs (suc n - length c) (got ++ c)
          (omega (arith, length-append c (pending cs))) in
      record {
        full = rw whole ih.full;
        buffer =
            rw (whole, take-append_ge (suc n) c (pending cs) fits)
              (ih.buffer ∙ append_assoc got c _);
        rest = rw (whole, drop-append_ge (suc n) c (pending cs) fits) ih.rest;
      }
  | inr part ↦
      let fits : suc n ≤ length c = ground arith in
      record {
        full = rw part;
        buffer = rw (part, take-append_le (suc n) c (pending cs) fits);
        rest = rw (part, drop-append_le (suc n) c (pending cs) fits);
      }
]

pub read_full_short :
    (r : Reader) (n : ℕ) (got : Bytes)
    → length (pending r) < n
    → read_full r n got ≡ (false, got ++ pending r, [])
unfolding read_full pending
read_full_short r zero got h = elim h [ ]
read_full_short [] (suc n) got h = rw append-nil
read_full_short (c ∷ cs) (suc n) got h = ground (
  arith,
  length-append c (pending cs),
  append_assoc got c (pending cs),
  read_full_short cs (suc n - length c) (got ++ c),
)
