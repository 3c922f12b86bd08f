-- ===== src/Net/Colons.antt =====
-- Groups of an IPv6 text with a colon between two, read by the loop of `parseIPv6`.
use semantic_echo.Base.{
  ℕ, suc, ◌+◌, ◌/◌, ◌%◌, ◌<◌, ◌≡◌, ◌≢◌, refl, sym, ap, ◌∙◌, true, not, List, [], ◌∷◌, ◌++◌, Option,
  none, some, arith, length, All, append_assoc, append-nil, if◌then◌else◌, ◌==◌,
}
use semantic_echo.Base.Text.{Bytes}
use semantic_echo.Net.{colon, separator, Groups, v6_groups}
use semantic_echo.Net.Print.{print_group, print_groups}
use semantic_echo.Net.Hex.{at_end, at_colon, print_group-IsRead, print_group-IsHex}

abbrev pub IsWord : ℕ → Type 0
IsWord g = g < 65536

-- The bytes of groups.
abbrev pub bytes_of : List ℕ → Bytes
bytes_of [] = []
bytes_of (g ∷ gs) = g / 256 ∷ g % 256 ∷ bytes_of gs

-- The text of groups begins with a byte that is no colon.
pub print_groups_cons :
    (g : ℕ) (gs : List ℕ)
    → IsWord g
    → (c : ℕ) × (s : Bytes) × (print_groups (g ∷ gs) ≡ c ∷ s) × (c ≢ colon)
unfolding print_groups
print_groups_cons g [] h = let (c, s, e, k) = print_group-IsHex g h in (c, s, e, k.0.2)
print_groups_cons g (h ∷ gs) w =
    let (c, s, e, k) = print_group-IsHex g w in
    (
      c,
      s ++ colon ∷ print_groups (h ∷ gs),
      ap (λ (t : Bytes). t ++ colon ∷ print_groups (h ∷ gs)) e,
      k.0.2,
    )

separator_next :
    (c : ℕ) (s out : Bytes) (at : Option ℕ)
    → c ≢ colon
    → separator (colon ∷ c ∷ s) out at
      ≡ some (true, record { out = out; ellipsis = at; rest = c ∷ s })
unfolding separator
separator_next c s out at h = ground arith

separator_twice :
    (s out : Bytes)
    → separator (colon ∷ colon ∷ s) out none
      ≡ some (not (length s == 0), record { out = out; ellipsis = some (length out); rest = s })
unfolding separator
separator_twice s out = refl

-- One round reads one group: the last, one before a colon, and one before two.
module _ (n g : ℕ) (out : Bytes) (h : IsWord g) where
  abbrev read_in : Option ℕ → Bytes → Groups
  read_in at rest = record { out = out ++ g / 256 ∷ g % 256 ∷ []; ellipsis = at; rest = rest }

  round_last :
      (at : Option ℕ)
      → v6_groups (suc n) (record { out = out; ellipsis = at; rest = print_group g ++ [] })
        ≡ some (read_in at [])
  unfolding v6_groups separator
  round_last at =
      let (off, e, some_digit) = print_group-IsRead g [] h at_end in
      rw (e, v6_groups) (ground arith)

  round_next :
      (c : ℕ) (s : Bytes) (at : Option ℕ)
      → c ≢ colon
      → v6_groups
          (suc n)
          (record { out = out; ellipsis = at; rest = print_group g ++ colon ∷ c ∷ s })
        ≡ v6_groups n (read_in at (c ∷ s))
  unfolding v6_groups
  round_next c s at k =
      let (off, e, some_digit) = print_group-IsRead g (colon ∷ c ∷ s) h (at_colon (c ∷ s)) in
      rw (e, v6_groups) (ground (arith, separator_next c s (out ++ g / 256 ∷ g % 256 ∷ []) at k))

  round_twice :
      (s : Bytes)
      → v6_groups
          (suc n)
          (record { out = out; ellipsis = none; rest = print_group g ++ colon ∷ colon ∷ s })
        ≡ (let at = some (length (out ++ g / 256 ∷ g % 256 ∷ [])) in
            if length s == 0 then some (read_in at s) else v6_groups n (read_in at s))
  unfolding v6_groups
  round_twice s =
      let (off, e, some_digit) =
        print_group-IsRead g (colon ∷ colon ∷ s) h (at_colon (colon ∷ s)) in
      rw (e, v6_groups) (ground (arith, separator_twice s (out ++ g / 256 ∷ g % 256 ∷ [])))

-- As many rounds as there are groups, and `m` more.
abbrev pub rounds : List ℕ → ℕ → ℕ
rounds [] m = m
rounds (g ∷ gs) m = suc (rounds gs m)

pub rounds_add : (gs : List ℕ) (m : ℕ) → rounds gs m ≡ length gs + m
rounds_add [] m = omega arith
rounds_add (g ∷ gs) m = omega (arith, rounds_add gs m)

-- The groups up to the end of the text.
pub read_groups :
    (g : ℕ) (gs : List ℕ) (m : ℕ) (out : Bytes) (at : Option ℕ)
    → All IsWord (g ∷ gs)
    → v6_groups
        (rounds (g ∷ gs) m)
        (record { out = out; ellipsis = at; rest = print_groups (g ∷ gs) })
      ≡ some (record { out = out ++ bytes_of (g ∷ gs); ellipsis = at; rest = [] })
unfolding print_groups
read_groups g [] m out at (w, ws) =
    ap (λ (t : Bytes). v6_groups (suc m) (record { out = out; ellipsis = at; rest = t }))
      (sym (append-nil (print_group g)))
    ∙ round_last m g out w at
read_groups g (h ∷ gs) m out at (w, ws) =
    let (c, s, e, k) = print_groups_cons h gs ws.0 in
    let pair = g / 256 ∷ g % 256 ∷ [] in
    rw e (round_next (rounds (h ∷ gs) m) g out w c s at k)
    ∙ ap
        (λ (t : Bytes).
          v6_groups (rounds (h ∷ gs) m) (record { out = out ++ pair; ellipsis = at; rest = t }))
        (sym e)
    ∙ read_groups h gs m (out ++ pair) at ws
    ∙ ap (λ (b : Bytes). some (record { out = b; ellipsis = at; rest = [] }))
        (append_assoc out pair (bytes_of (h ∷ gs)))

-- What two colons leave to do.
abbrev pub after_ellipsis : ℕ → Bytes → Bytes → Option Groups
after_ellipsis m out s =
    let g : Groups = record { out = out; ellipsis = some (length out); rest = s } in
    if length s == 0 then some g else v6_groups m g

-- The groups before two colons.
pub read_before :
    (g : ℕ) (gs : List ℕ) (m : ℕ) (out s : Bytes)
    → All IsWord (g ∷ gs)
    → v6_groups
        (rounds (g ∷ gs) m)
        (record { out = out; ellipsis = none; rest = print_groups (g ∷ gs) ++ colon ∷ colon ∷ s })
      ≡ after_ellipsis m (out ++ bytes_of (g ∷ gs)) s
unfolding print_groups
read_before g [] m out s (w, ws) = round_twice m g out w s
read_before g (h ∷ gs) m out s (w, ws) =
    let (c, t, e, k) = print_groups_cons h gs ws.0 in
    let pair = g / 256 ∷ g % 256 ∷ [] in
    let rest = colon ∷ colon ∷ s in
    ap
      (λ (t : Bytes).
        v6_groups (rounds (g ∷ h ∷ gs) m) (record { out = out; ellipsis = none; rest = t }))
      (append_assoc (print_group g) (colon ∷ print_groups (h ∷ gs)) rest)
    ∙ rw e (round_next (rounds (h ∷ gs) m) g out w c (t ++ rest) none k)
    ∙ ap
        (λ (t : Bytes).
          v6_groups (rounds (h ∷ gs) m)
            (record { out = out ++ pair; ellipsis = none; rest = t ++ rest }))
        (sym e)
    ∙ read_before h gs m (out ++ pair) s ws
    ∙ ap (λ (b : Bytes). after_ellipsis m b s) (append_assoc out pair (bytes_of (h ∷ gs)))
