-- ===== src/Hosts/Splitting.antt =====
-- `splitComma` against its description: the pieces between commas that are not empty.
use semantic_echo.Base.{
  ℕ, suc, ◌+◌, ◌-◌, ◌≡◌, refl, sym, ap, ◌∙◌, true, false, List, [], ◌∷◌, ◌++◌, some, if◌then◌else◌,
  ltb, ◌==◌, length, get_elem?, arith, append_assoc, append-nil, length-append, take-length,
  drop-length, Bool-cases, inl, inr,
}
use semantic_echo.Base.Text.{Bytes}
use semantic_echo.Strings.{flush}
use semantic_echo.Hosts.{comma, slice, at_cut, split_loop, split_comma}
use native.Mathlib.Numerals.{add-one}

-- The description: the piece at hand, then the pieces of the rest.
unfoldable pub pieces : Bytes → Bytes → List Bytes
pieces cur [] = flush cur []
pieces cur (c ∷ s) =
    let close = flush cur (pieces [] s) in
    let more = pieces (cur ++ c ∷ []) s in if c == comma then close else more

get_elem?-append : (xs ys : Bytes) (c : ℕ) → get_elem? (xs ++ c ∷ ys) (length xs) ≡ some c
get_elem?-append [] ys c = refl
get_elem?-append (x ∷ xs) ys c = get_elem?-append xs ys c

slice-middle :
    (pre cur rest : Bytes) (i : ℕ)
    → i ≡ length pre + length cur
    → slice (pre ++ (cur ++ rest)) (length pre) i ≡ cur
slice-middle pre cur rest i e =
    let n : i - length pre ≡ length cur = omega arith in
    rw (n, drop-length pre (cur ++ rest)) (take-length cur rest)

flush-append :
    (out : List Bytes) (cur : Bytes) (ps : List Bytes) (pre : ℕ)
    → (if ltb pre (pre + length cur) then out ++ cur ∷ [] else out) ++ ps ≡ out ++ flush cur ps
flush-append out [] ps pre = ground arith
flush-append out (c ∷ cur) ps pre = ground (arith, append_assoc out ((c ∷ cur) ∷ []) ps)

loop_cuts :
    (s : Bytes) (n i start : ℕ) (out : List Bytes)
    → at_cut s i ≡ true
    → split_loop s (suc n) i start out
      ≡ split_loop s n (i + 1) (i + 1) (if ltb start i then out ++ slice s start i ∷ [] else out)
unfolding split_loop
loop_cuts s n i start out h = rw h

loop_passes :
    (s : Bytes) (n i start : ℕ) (out : List Bytes)
    → at_cut s i ≡ false
    → split_loop s (suc n) i start out ≡ split_loop s n (i + 1) start out
unfolding split_loop
loop_passes s n i start out h = rw h

loop_ends : (s : Bytes) (i start : ℕ) (out : List Bytes) → split_loop s 0 i start out ≡ out
unfolding split_loop
loop_ends s i start out = refl

-- The loop stands at the byte `i` of the text, `cur` being the piece at hand.
record At (s pre cur rest : Bytes) (i start : ℕ) : Type 0 where
  text : s ≡ pre ++ (cur ++ rest)
  place : i ≡ length pre + length cur
  begun : start ≡ length pre

At-length :
    {s pre cur rest : Bytes} {i start : ℕ} → At s pre cur rest i start → length s ≡ i + length rest
At-length {s} {pre} {cur} {rest} a =
    omega
      (arith, ap length a.text, length-append pre (cur ++ rest), length-append cur rest, a.place)

At-byte :
    {s pre cur rest : Bytes} {i start c : ℕ}
    → At s pre cur (c ∷ rest) i start
    → get_elem? s i ≡ some c
At-byte {pre} {cur} {rest} {i} {c} a =
    let n : i ≡ length (pre ++ cur) = omega (arith, length-append pre cur, a.place) in
    rw (a.text, ← append_assoc pre cur (c ∷ rest), n) (get_elem?-append (pre ++ cur) rest c)

-- What a cut adds to the pieces found so far.
At-cut :
    {s pre cur rest : Bytes} {i start : ℕ} (out ps : List Bytes)
    → At s pre cur rest i start
    → (if ltb start i then out ++ slice s start i ∷ [] else out) ++ ps ≡ out ++ flush cur ps
At-cut {s} {pre} {cur} {rest} {i} {start} out ps a =
    rw (a.text, a.begun, slice-middle pre cur rest i a.place, a.place)
      (flush-append out cur ps (length pre))

At-pass :
    {s pre cur rest : Bytes} {i start c : ℕ}
    → At s pre cur (c ∷ rest) i start
    → At s pre (cur ++ c ∷ []) rest (i + 1) start
At-pass {pre} {cur} {rest} {c} a = record {
  text = a.text ∙ ap (◌++◌ pre) (sym (append_assoc cur (c ∷ []) rest));
  place = omega (arith, a.place, length-append cur (c ∷ []));
  begun = a.begun;
}

At-next :
    {s pre cur rest : Bytes} {i start c : ℕ}
    → At s pre cur (c ∷ rest) i start
    → At s (pre ++ (cur ++ c ∷ [])) [] rest (i + 1) (i + 1)
At-next {pre} {cur} {rest} {i} {c} a =
    let n : i + 1 ≡ length (pre ++ (cur ++ c ∷ [])) =
      omega (arith, a.place, length-append pre (cur ++ c ∷ []), length-append cur (c ∷ [])) in
    record {
      text =
          a.text
          ∙ ap (◌++◌ pre) (sym (append_assoc cur (c ∷ []) rest))
          ∙ sym (append_assoc pre (cur ++ c ∷ []) rest);
      place = omega (arith, n);
      begun = n;
    }

split_loop-pieces :
    (rest : Bytes) {s : Bytes} (pre cur : Bytes) {i start : ℕ} (out : List Bytes)
    → At s pre cur rest i start
    → split_loop s (suc (length rest)) i start out ≡ out ++ pieces cur rest
unfolding pieces
split_loop-pieces [] {s} pre cur {i} {start} out a =
    loop_cuts s 0 i start out (ground (arith, At-length a))
    ∙ loop_ends s (i + 1) (i + 1) _
    ∙ sym (append-nil _)
    ∙ At-cut out [] a
split_loop-pieces (c ∷ rest) {s} pre cur {i} {start} out a = elim (Bool-cases (c == comma)) [
  | inl cut ↦
      loop_cuts s (suc (length rest)) i start out (ground (arith, At-byte a))
      ∙ split_loop-pieces rest (pre ++ (cur ++ c ∷ [])) [] _ (At-next a)
      ∙ At-cut out (pieces [] rest) a
      ∙ rw cut
  | inr pass ↦
      loop_passes s (suc (length rest)) i start out (ground (arith, At-byte a, At-length a))
      ∙ split_loop-pieces rest pre (cur ++ c ∷ []) out (At-pass a)
      ∙ rw pass
]

-- `splitComma` returns the pieces between commas that are not empty, in order.
pub split_comma-pieces : (s : Bytes) → split_comma s ≡ pieces [] s
unfolding split_comma
split_comma-pieces s =
    rw add-one (split_loop-pieces s [] [] [] (record { text = refl; place = refl; begun = refl }))
