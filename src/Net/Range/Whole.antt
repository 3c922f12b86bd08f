-- ===== src/Net/Range/Whole.antt =====
-- What `ParseIP` returns is sixteen bytes.
use semantic_echo.Base.{
  ℕ, zero, suc, ◌-◌, ◌/◌, ◌%◌, ◌<◌, ◌≡◌, refl, ap, true, false, ◌&&◌, [], ◌∷◌, ◌++◌, Option, none,
  some, inl, inr, arith, length, take, drop, All-append, Bool-cases, Option-cases, ◌==◌,
  length-append, take-append-drop,
}
use mathlib.Core.Path.{subst}
use semantic_echo.Base.Text.{Bytes}
use semantic_echo.Net.{
  colon, dot, hex_group, v4_fields, Groups, separator, v6_groups, replicate, expand, finish,
  groups_of, starts_dot, parse_v6, parse_ip, family, contains, v4_prefix,
}
use semantic_echo.Net.Runs.{length-replicate}
use semantic_echo.Net.Range.{
  IsByte, AreBytes, IsAddress, v4_fields-IsAddress, group-AreBytes, embedded-AreBytes,
  separator_out,
}

All-take : (n : ℕ) (s : Bytes) → AreBytes s → AreBytes (take n s)
All-take zero s h = tt
All-take (suc n) [] h = tt
All-take (suc n) (b ∷ s) (h, hs) = (h, All-take n s hs)

pub All-drop : (n : ℕ) (s : Bytes) → AreBytes s → AreBytes (drop n s)
All-drop zero s h = h
All-drop (suc n) [] h = tt
All-drop (suc n) (b ∷ s) (h, hs) = All-drop n s hs

All-replicate : (n : ℕ) → AreBytes (replicate n)
All-replicate zero = tt
All-replicate (suc n) = (omega arith, All-replicate n)

expand-IsAddress :
    (out rest : Bytes) (at : Option ℕ) (ip : Bytes)
    → expand (record { out = out; ellipsis = at; rest = rest }) ≡ some ip
    → AreBytes out
    → IsAddress 16 ip
unfolding expand
expand-IsAddress out rest none ip e h =
    let full : (length out ≡ 16) × (out ≡ ip) = ground arith in
    (omega (arith, full.0, ap length full.1), subst AreBytes full.1 h)
expand-IsAddress out rest (some at) ip e h =
    let left_out = 16 - length out in
    let filled = take at out ++ replicate left_out ++ drop at out in
    let full : (length out < 16) × (filled ≡ ip) = ground arith in
    let bytes =
      All-append IsByte (take at out ++ replicate left_out) (drop at out)
        (All-append IsByte (take at out) (replicate left_out) (All-take at out h)
          (All-replicate left_out))
        (All-drop at out h) in
    (
      omega (
        arith,
        full.0,
        ap length full.1,
        length-append (take at out ++ replicate left_out) (drop at out),
        length-append (take at out) (replicate left_out),
        length-replicate left_out,
        length-append (take at out) (drop at out),
        ap length (take-append-drop at out),
      ),
      subst AreBytes full.1 bytes,
    )

-- What a group leads to, once it is read.
group_step-AreBytes :
    (n : ℕ) (g g' : Groups) (off acc : ℕ) (s : Bytes)
    → ((h : Groups) → v6_groups n h ≡ some g' → AreBytes h.out → AreBytes g'.out)
    → hex_group g.rest 0 0 ≡ some (off, acc, s)
    → v6_groups (suc n) g ≡ some g'
    → AreBytes g.out
    → AreBytes g'.out
unfolding v6_groups
group_step-AreBytes n g g' off acc s later read e h =
    let e₁ = rw (read, v6_groups) at e in
    let out = g.out ++ acc / 256 ∷ acc % 256 ∷ [] in
    let out_bytes =
      All-append IsByte g.out (acc / 256 ∷ acc % 256 ∷ []) h
        (group-AreBytes g.rest off acc s read) in
    elim (Bool-cases (off == 0)) [
      | inl none_read ↦ absurd (ground (arith, rw none_read at e₁))
      | inr some_read ↦ elim (Bool-cases (starts_dot s)) [
        | inl dotted ↦ embedded-AreBytes g.rest g.out g.ellipsis g' (rw (some_read, dotted) at e₁) h
        | inr plain ↦ elim (Option-cases (separator s out g.ellipsis)) [
          | inl bad ↦ absurd (ground (arith, rw (some_read, plain, bad) at e₁))
          | inr ((true, g''), good) ↦
              later g'' (rw (some_read, plain, good) at e₁)
                (subst AreBytes (separator_out s out g.ellipsis true g'' good) out_bytes)
          | inr ((false, g''), good) ↦
              let same : g'' ≡ g' = cc (rw (some_read, plain, good) at e₁) in
              subst (λ (g : Groups). AreBytes g.out) same
                (subst AreBytes (separator_out s out g.ellipsis false g'' good) out_bytes)
        ]
      ]
    ]

v6_groups-AreBytes :
    (n : ℕ) (g g' : Groups) → v6_groups n g ≡ some g' → AreBytes g.out → AreBytes g'.out
unfolding v6_groups
v6_groups-AreBytes zero g g' e h =
    let same : g ≡ g' = cc in subst (λ (g : Groups). AreBytes g.out) same h
v6_groups-AreBytes (suc n) g g' e h = elim (Option-cases (hex_group g.rest 0 0)) [
  | inl bad ↦ absurd (ground (arith, rw (bad, v6_groups) at e))
  | inr ((off, acc, s), read) ↦
      group_step-AreBytes n g g' off acc s (λ g'' e' h'. v6_groups-AreBytes n g'' g' e' h') read e h
]

finish-IsAddress :
    (n : ℕ) (g : Groups) (ip : Bytes)
    → finish (v6_groups n g) ≡ some ip
    → AreBytes g.out
    → IsAddress 16 ip
finish-IsAddress n g ip e h = elim (Option-cases (v6_groups n g)) [
  | inl bad ↦ cc (rw bad at e)
  | inr (g', good) ↦
      expand-IsAddress g'.out g'.rest g'.ellipsis ip (rw good at e)
        (v6_groups-AreBytes n g g' good h)
]

parse_v6-IsAddress : (s ip : Bytes) → parse_v6 s ≡ some ip → IsAddress 16 ip
unfolding parse_v6
parse_v6-IsAddress [] ip e = finish-IsAddress 8 (groups_of []) ip e tt
parse_v6-IsAddress (c ∷ []) ip e = finish-IsAddress 8 (groups_of (c ∷ [])) ip e tt
parse_v6-IsAddress (c ∷ d ∷ s) ip e = elim (Bool-cases (c == colon && d == colon)) [
  | inl front ↦ elim (Bool-cases (length s == 0)) [
    | inl bare ↦
        let same : replicate 16 ≡ ip = cc (rw (front, bare) at e) in
        subst (IsAddress 16) same (refl, All-replicate 16)
    | inr more ↦
        finish-IsAddress 8 (record { out = []; ellipsis = some 0; rest = s }) ip
          (rw (front, more) at e) tt
  ]
  | inr other ↦ finish-IsAddress 8 (groups_of (c ∷ d ∷ s)) ip (rw other at e) tt
]

mapped-IsAddress :
    (v ip : Bytes) → IsAddress 4 v → some (v4_prefix ++ v) ≡ some ip → IsAddress 16 ip
mapped-IsAddress v ip (four, h) e =
    let same : v4_prefix ++ v ≡ ip = cc in
    subst (IsAddress 16) same (
      omega (arith, length-append v4_prefix v, four),
      All-append IsByte v4_prefix v (omega arith) h,
    )

-- Whatever text is read as an address, it is sixteen bytes.
pub parse_ip-IsAddress : (s ip : Bytes) → parse_ip s ≡ some ip → IsAddress 16 ip
unfolding parse_ip
parse_ip-IsAddress s ip e = elim (Option-cases (family s)) [
  | inl none_found ↦ cc (rw none_found at e)
  | inr (c, found) ↦ elim (Bool-cases (c == dot)) [
    | inl dotted ↦ elim (Option-cases (v4_fields s 0 0 [])) [
      | inl bad ↦ cc (rw (found, dotted, bad) at e)
      | inr (v, good) ↦
          mapped-IsAddress v ip (v4_fields-IsAddress s 0 0 [] v good (omega arith) tt)
            (rw (found, dotted, good) at e)
    ]
    | inr not_dotted ↦ elim (Bool-cases (c == colon)) [
      | inl coloned ↦ elim (Bool-cases (contains b'%' s)) [
        | inl zoned ↦ cc (rw (found, not_dotted, coloned, zoned) at e)
        | inr plain ↦ parse_v6-IsAddress s ip (rw (found, not_dotted, coloned, plain) at e)
      ]
      | inr zone ↦ cc (rw (found, not_dotted, zone) at e)
    ]
  ]
]
