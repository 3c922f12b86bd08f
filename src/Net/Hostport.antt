-- ===== src/Net/Hostport.antt =====
-- `net.SplitHostPort` and `net.JoinHostPort`: the host and the port of "host:port", "[host]:port".
pub mod Cutting
use semantic_echo.Base.{
  ℕ, suc, ◌+◌, ◌||◌, [], ◌∷◌, ◌++◌, Option, none, some, if◌then◌else◌, ◌==◌, take, drop,
}
use semantic_echo.Base.Text.{Bytes}
use semantic_echo.Net.{colon, contains}

-- `strings.IndexByte` and `strings.LastIndexByte`
unfoldable pub index : ℕ → Bytes → Option ℕ
index c [] = none
index c (x ∷ s) =
    let rest = index c s in
    if x == c then some 0 else elim rest [ none ↦ none | some i ↦ some (suc i) ]

unfoldable pub last_index : ℕ → Bytes → Option ℕ
last_index c [] = none
last_index c (x ∷ s) = elim (last_index c s) [
  | some i ↦ some (suc i)
  | none ↦ if x == c then some 0 else none
]

-- The checks on brackets that do not belong, and the cut at the last colon.
unfoldable pub cut : Bytes → Bytes → Bytes → Bytes → ℕ → Option (Bytes × Bytes)
unfolding contains
cut text host after_open after_close i =
    if contains b'[' after_open || contains b']' after_close
    then none
    else some (host, drop (suc i) text)

-- `i` is the place of the last colon.
unfoldable pub split_at : Bytes → ℕ → Option (Bytes × Bytes)
unfolding cut index
split_at [] i = none
split_at (c ∷ s) i =
    if c == b'['
    then elim (index b']' (c ∷ s)) [
      | none ↦ none
      | some end ↦
          if suc end == i
          then cut (c ∷ s) (drop 1 (take end (c ∷ s))) s (drop (suc end) (c ∷ s)) i
          else none
    ]
    else if contains colon (take i (c ∷ s))
    then none
    else cut (c ∷ s) (take i (c ∷ s)) (c ∷ s) (c ∷ s) i

unfoldable pub split_host_port : Bytes → Option (Bytes × Bytes)
unfolding split_at last_index
split_host_port text = elim (last_index colon text) [ none ↦ none | some i ↦ split_at text i ]

-- `net.JoinHostPort`
unfoldable pub join_host_port : Bytes → Bytes → Bytes
unfolding contains
join_host_port host port =
    if contains colon host || contains b'%' host
    then b'[' ∷ (host ++ b']' ∷ colon ∷ port)
    else host ++ colon ∷ port
