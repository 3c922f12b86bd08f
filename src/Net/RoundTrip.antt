-- ===== src/Net/RoundTrip.antt =====
-- `IP.String` and `ParseIP` on the addresses of sixteen bytes that stand for no IPv4 address.
use semantic_echo.Base.{
  ℕ, ◌+◌, ◌*◌, ◌/◌, ◌%◌, ◌≤◌, ◌≡◌, refl, sym, ap, ◌∙◌, false, List, [], ◌∷◌, ◌++◌, some, inl, inr,
  arith, length, All, All-append, append_assoc, ◌==◌,
}
use mathlib.Core.Path.{subst}
use semantic_echo.Base.Text.{Bytes}
use semantic_echo.Net.{colon, replicate, family, contains, parse_ip, parse_v6}
use semantic_echo.Net.Print.{print_group, print_groups, print_v6, groups, longest}
use semantic_echo.Net.Hex.{IsHex, print_group-IsHex}
use semantic_echo.Net.Colons.{IsWord, bytes_of}
use semantic_echo.Net.Runs.{IsRun, longest_found, run-take, run-drop, run-length}
use semantic_echo.Net.Sixteen.{parse_cut, parse_whole, expand_cut}

groups-bytes_of : (gs : List ℕ) → groups (bytes_of gs) ≡ gs
unfolding groups
groups-bytes_of [] = refl
groups-bytes_of (g ∷ gs) =
    let same : g / 256 * 256 + g % 256 ≡ g = omega arith in
    ap (λ (h : ℕ). h ∷ groups (bytes_of gs)) same ∙ ap (◌∷◌ g) (groups-bytes_of gs)

All-split : (xs ys : List ℕ) → All IsWord (xs ++ ys) → All IsWord xs × All IsWord ys
All-split [] ys h = (tt, h)
All-split (x ∷ xs) ys (w, h) = let (v, u) = All-split xs ys h in ((w, v), u)

-- The two forms of the text: whole, and cut where a run of zeros was.
abbrev cut_text : List ℕ → List ℕ → Bytes
cut_text before after = print_groups before ++ colon ∷ colon ∷ print_groups after

print_v6_whole :
    (gs : List ℕ) → (longest gs 0 (0, 0)).1 ≡ 0 → print_v6 (bytes_of gs) ≡ print_groups gs
unfolding print_v6
print_v6_whole gs e = rw (groups-bytes_of gs, print_v6) (rw e refl)

not_zero : (n : ℕ) → 2 ≤ n → (n == 0) ≡ false
not_zero n h = ground arith

print_v6_cut :
    (gs : List ℕ) (r : IsRun gs (longest gs 0 (0, 0)).0 (longest gs 0 (0, 0)).1)
    → print_v6 (bytes_of gs) ≡ cut_text r.before r.after
unfolding print_v6
print_v6_cut gs r =
    rw (groups-bytes_of gs, print_v6)
      (rw (not_zero (longest gs 0 (0, 0)).1 r.two, run-take gs _ _ r, run-drop gs _ _ r) refl)

parse_v6-print_v6 :
    (gs : List ℕ)
    → All IsWord gs
    → length gs ≡ 8
    → parse_v6 (print_v6 (bytes_of gs)) ≡ some (bytes_of gs)
parse_v6-print_v6 gs w h = elim (longest_found gs) [
  | inl none_left ↦ ap parse_v6 (print_v6_whole gs none_left) ∙ parse_whole gs w h
  | inr r ↦
      let at = (longest gs 0 (0, 0)).0 in
      let run = (longest gs 0 (0, 0)).1 in
      let words = subst (All IsWord) r.split w in
      let (before, rest) = All-split r.before (replicate run ++ r.after) words in
      let (zeros, after) = All-split (replicate run) r.after rest in
      let total = run-length gs at run r in
      ap parse_v6 (print_v6_cut gs r)
      ∙ parse_cut r.before r.after before after (omega (arith, total, h))
      ∙ expand_cut r.before r.after run r.two (total ∙ h)
      ∙ ap (λ (gs : List ℕ). some (bytes_of gs)) (sym r.split)
]

-- No byte of a text is a '%', and the first that is no digit is a colon.
abbrev IsText : Bytes → Type 0
IsText = All (λ c. b'0' ≤ c)

contains-IsText : (s : Bytes) → IsText s → contains b'%' s ≡ false
unfolding contains
contains-IsText [] h = refl
contains-IsText (c ∷ s) (h, hs) = ground (arith, contains-IsText s hs)

IsHex-IsText : (s : Bytes) → All IsHex s → IsText s
IsHex-IsText [] h = tt
IsHex-IsText (c ∷ s) (h, hs) = (h.0, IsHex-IsText s hs)

print_group-IsText : (g : ℕ) → IsWord g → IsText (print_group g)
print_group-IsText g h =
    let (c, s, e, k) = print_group-IsHex g h in subst IsText (sym e) (IsHex-IsText (c ∷ s) k)

print_groups-IsText : (gs : List ℕ) → All IsWord gs → IsText (print_groups gs)
unfolding print_groups
print_groups-IsText [] w = tt
print_groups-IsText (g ∷ []) w = print_group-IsText g w.0
print_groups-IsText (g ∷ h ∷ gs) w =
    All-append _ (print_group g) (colon ∷ print_groups (h ∷ gs)) (print_group-IsText g w.0)
      (omega arith, print_groups-IsText (h ∷ gs) w.1)

family-IsHex : (s rest : Bytes) → All IsHex s → family (s ++ colon ∷ rest) ≡ some colon
unfolding family
family-IsHex [] rest h = refl
family-IsHex (c ∷ s) rest (h, hs) = ground (arith, family-IsHex s rest hs)

family-group :
    (g : ℕ) (rest : Bytes) → IsWord g → family (print_group g ++ colon ∷ rest) ≡ some colon
family-group g rest h =
    let (c, s, e, k) = print_group-IsHex g h in
    ap (λ (t : Bytes). family (t ++ colon ∷ rest)) e ∙ family-IsHex (c ∷ s) rest k

family_cut :
    (before : List ℕ) (rest : Bytes)
    → All IsWord before
    → family (print_groups before ++ colon ∷ rest) ≡ some colon
unfolding print_groups
family_cut [] rest w = family-IsHex [] rest tt
family_cut (g ∷ []) rest w = family-group g rest w.0
family_cut (g ∷ h ∷ gs) rest w =
    ap family (append_assoc (print_group g) (colon ∷ print_groups (h ∷ gs)) (colon ∷ rest))
    ∙ family-group g (print_groups (h ∷ gs) ++ colon ∷ rest) w.0

family_whole : (gs : List ℕ) → All IsWord gs → length gs ≡ 8 → family (print_groups gs) ≡ some colon
unfolding print_groups
family_whole [] w h = absurd (omega (arith, h))
family_whole (g ∷ []) w h = absurd (omega (arith, h))
family_whole (g ∷ k ∷ gs) w h = family-group g (print_groups (k ∷ gs)) w.0

print_v6-family :
    (gs : List ℕ) → All IsWord gs → length gs ≡ 8 → family (print_v6 (bytes_of gs)) ≡ some colon
print_v6-family gs w h = elim (longest_found gs) [
  | inl none_left ↦ ap family (print_v6_whole gs none_left) ∙ family_whole gs w h
  | inr r ↦
      ap family (print_v6_cut gs r)
      ∙ family_cut r.before (colon ∷ print_groups r.after)
          (All-split r.before _ (subst (All IsWord) r.split w)).0
]

print_v6-IsText : (gs : List ℕ) → All IsWord gs → IsText (print_v6 (bytes_of gs))
print_v6-IsText gs w = elim (longest_found gs) [
  | inl none_left ↦ subst IsText (sym (print_v6_whole gs none_left)) (print_groups-IsText gs w)
  | inr r ↦
      let (before, rest) = All-split r.before _ (subst (All IsWord) r.split w) in
      let (zeros, after) = All-split (replicate (longest gs 0 (0, 0)).1) r.after rest in
      subst IsText (sym (print_v6_cut gs r)) (
        All-append _ (print_groups r.before) (colon ∷ colon ∷ print_groups r.after)
          (print_groups-IsText r.before before)
          (omega arith, (omega arith, print_groups-IsText r.after after)))
]

-- The text of eight groups is read back as their bytes.
pub parse_ip-print_v6 :
    (gs : List ℕ)
    → All IsWord gs
    → length gs ≡ 8
    → parse_ip (print_v6 (bytes_of gs)) ≡ some (bytes_of gs)
unfolding parse_ip
parse_ip-print_v6 gs w h =
    rw
      (
        print_v6-family gs w h,
        contains-IsText (print_v6 (bytes_of gs)) (print_v6-IsText gs w),
        parse_ip,
      )
      (parse_v6-print_v6 gs w h)
