-- ===== src/Net/Sixteen.antt =====
-- The text of an address of sixteen bytes that stands for no IPv4 address, read again.
use semantic_echo.Base.{
  ℕ, zero, suc, ◌+◌, ◌-◌, ◌*◌, ◌/◌, ◌%◌, ◌≤◌, ◌≡◌, ◌≢◌, refl, sym, ap, ◌∙◌, false, List, [], ◌∷◌,
  ◌++◌, none, some, arith, length, All, append_assoc, append-nil, ◌==◌, length-append, take-length,
  drop-length, lt→ltb,
}
use semantic_echo.Base.Text.{Bytes}
use semantic_echo.Net.{colon, Groups, v6_groups, replicate, expand, finish, groups_of, parse_v6}
use semantic_echo.Net.Print.{print_groups}
use semantic_echo.Net.Colons.{
  IsWord, bytes_of, print_groups_cons, rounds, rounds_add, read_groups, read_before, after_ellipsis,
}

bytes_of-append : (a b : List ℕ) → bytes_of (a ++ b) ≡ bytes_of a ++ bytes_of b
bytes_of-append [] b = refl
bytes_of-append (g ∷ a) b = ap (λ (s : Bytes). g / 256 ∷ g % 256 ∷ s) (bytes_of-append a b)

length-bytes_of : (gs : List ℕ) → length (bytes_of gs) ≡ 2 * length gs
length-bytes_of [] = refl
length-bytes_of (g ∷ gs) = omega (arith, length-bytes_of gs)

twice_suc : (n : ℕ) → suc (suc (2 * n)) ≡ 2 * suc n
twice_suc n = omega arith

bytes_of-replicate : (n : ℕ) → bytes_of (replicate n) ≡ replicate (2 * n)
bytes_of-replicate zero = refl
bytes_of-replicate (suc n) =
    ap (λ (s : Bytes). 0 ∷ 0 ∷ s) (bytes_of-replicate n) ∙ ap replicate (twice_suc n)

parse_v6_plain :
    (c : ℕ) (s : Bytes) → c ≢ colon → parse_v6 (c ∷ s) ≡ finish (v6_groups 8 (groups_of (c ∷ s)))
unfolding parse_v6
parse_v6_plain c [] h = refl
parse_v6_plain c (d ∷ s) h = ground arith

nonempty : (s : Bytes) (c : ℕ) (t : Bytes) → s ≡ c ∷ t → (length s == 0) ≡ false
nonempty s c t e = rw e (ground arith)

-- The groups after the two colons.
after_groups :
    (after : List ℕ) (m : ℕ) (out : Bytes)
    → All IsWord after
    → length after ≤ m
    → after_ellipsis m out (print_groups after)
      ≡ some (record { out = out ++ bytes_of after; ellipsis = some (length out); rest = [] })
unfolding print_groups
after_groups [] m out w h =
    ap (λ (b : Bytes). some (record { out = b; ellipsis = some (length out); rest = [] }))
      (sym (append-nil out))
after_groups (g ∷ gs) m out w h =
    let (c, t, e, k) = print_groups_cons g gs w.0 in
    let start : Groups = record {
      out = out;
      ellipsis = some (length out);
      rest = print_groups (g ∷ gs);
    } in
    let enough : rounds (g ∷ gs) (m - length (g ∷ gs)) ≡ m =
      omega (arith, rounds_add (g ∷ gs) (m - length (g ∷ gs))) in
    rw (nonempty (print_groups (g ∷ gs)) c t e) (
      ap (λ (n : ℕ). v6_groups n start) (sym enough)
      ∙ read_groups g gs (m - length (g ∷ gs)) out (some (length out)) w)

-- What is read of groups before two colons and groups after them.
abbrev cut_groups : List ℕ → List ℕ → Groups
cut_groups before after = record {
  out = bytes_of before ++ bytes_of after;
  ellipsis = some (length (bytes_of before));
  rest = [];
}

parse_cut_front :
    (after : List ℕ)
    → All IsWord after
    → length after ≤ 8
    → parse_v6 (colon ∷ colon ∷ print_groups after) ≡ expand (cut_groups [] after)
unfolding parse_v6 expand print_groups
parse_cut_front [] w h = refl
parse_cut_front (g ∷ gs) w h =
    let (c, t, e, k) = print_groups_cons g gs w.0 in
    let full = nonempty (print_groups (g ∷ gs)) c t e in
    rw full (ap finish (rw full at (after_groups (g ∷ gs) 8 [] w h)))

pub parse_cut :
    (before after : List ℕ)
    → All IsWord before
    → All IsWord after
    → length before + length after ≤ 8
    → parse_v6 (print_groups before ++ colon ∷ colon ∷ print_groups after)
      ≡ expand (cut_groups before after)
unfolding print_groups
parse_cut [] after v w h = parse_cut_front after w (omega (arith, h))
parse_cut (g ∷ gs) after v w h =
    let (c, t, e, k) = print_groups_cons g gs v.0 in
    let m = 8 - length (g ∷ gs) in
    let s = print_groups after in
    let enough : rounds (g ∷ gs) m ≡ 8 = omega (arith, rounds_add (g ∷ gs) m, h) in
    let text = print_groups (g ∷ gs) ++ colon ∷ colon ∷ s in
    ap (λ (t : Bytes). parse_v6 (t ++ colon ∷ colon ∷ s)) e
    ∙ parse_v6_plain c (t ++ colon ∷ colon ∷ s) k
    ∙ ap (λ (t : Bytes). finish (v6_groups 8 (groups_of (t ++ colon ∷ colon ∷ s)))) (sym e)
    ∙ ap (λ (n : ℕ). finish (v6_groups n (groups_of text))) (sym enough)
    ∙ ap finish (read_before g gs m [] s v)
    ∙ ap finish (after_groups after m (bytes_of (g ∷ gs)) w (omega (arith, h)))

pub parse_whole :
    (gs : List ℕ) → All IsWord gs → length gs ≡ 8 → parse_v6 (print_groups gs) ≡ some (bytes_of gs)
unfolding print_groups expand
parse_whole [] w h = absurd (omega (arith, h))
parse_whole (g ∷ gs) w h =
    let (c, t, e, k) = print_groups_cons g gs w.0 in
    let enough : rounds (g ∷ gs) 0 ≡ 8 = omega (arith, rounds_add (g ∷ gs) 0, h) in
    let text = print_groups (g ∷ gs) in
    ap parse_v6 e
    ∙ parse_v6_plain c t k
    ∙ ap (λ (t : Bytes). finish (v6_groups 8 (groups_of t))) (sym e)
    ∙ ap (λ (n : ℕ). finish (v6_groups n (groups_of text))) (sym enough)
    ∙ ap finish (read_groups g gs 0 [] none w)
    ∙ ground (arith, length-bytes_of gs, h)

filled :
    (before after : List ℕ) (run : ℕ)
    → bytes_of (before ++ (replicate run ++ after))
      ≡ bytes_of before ++ (replicate (2 * run) ++ bytes_of after)
filled before after run =
    bytes_of-append before (replicate run ++ after)
    ∙ ap (λ (s : Bytes). bytes_of before ++ s)
        (bytes_of-append (replicate run) after
          ∙ ap (λ (s : Bytes). s ++ bytes_of after) (bytes_of-replicate run))

-- The `::` stands for the run that was left out.
pub expand_cut :
    (before after : List ℕ) (run : ℕ)
    → 2 ≤ run
    → length before + run + length after ≡ 8
    → expand (cut_groups before after) ≡ some (bytes_of (before ++ (replicate run ++ after)))
unfolding expand
expand_cut before after run two h =
    let front = bytes_of before in
    let back = bytes_of after in
    let total : length (front ++ back) + 2 * run ≡ 16 =
      omega (arith, length-append front back, length-bytes_of before, length-bytes_of after, h) in
    let left_out : 16 - length (front ++ back) ≡ 2 * run = omega (arith, total) in
    rw
      (
        lt→ltb (length (front ++ back)) 16 (omega (arith, total, two)),
        take-length front back,
        drop-length front back,
      )
      (ap some (
        append_assoc front (replicate (16 - length (front ++ back))) back
        ∙ ap (λ (n : ℕ). front ++ (replicate n ++ back)) left_out
        ∙ sym (filled before after run)))
