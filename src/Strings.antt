-- ===== src/Strings.antt =====
-- What the program uses of Go's `strings`: `Fields`, `TrimRight`, `TrimSpace`, `HasPrefix`,
-- `HasSuffix`, `CutPrefix` and `TrimSuffix`.
use semantic_echo.Base.{
  ℕ, zero, suc, Bool, true, false, ◌&&◌, ◌||◌, List, [], ◌∷◌, ◌++◌, Option, none, some,
  if◌then◌else◌, leb, ◌==◌, ◌-◌, length, take, drop,
}
use semantic_echo.Base.Text.{Bytes, bytes_eq}

-- The bytes of the white space that a text begins with, 0 if there is none: ASCII, and the runes
-- that `unicode.IsSpace` lists beyond it, in UTF-8.
unfoldable pub space_width : Bytes → ℕ
space_width [] = 0
space_width (c ∷ []) = if leb 9 c && leb c 13 || c == 32 then 1 else 0
space_width (c ∷ d ∷ []) =
    if leb 9 c && leb c 13 || c == 32
    then 1
    else if c == 0xC2 && (d == 0x85 || d == 0xA0)
    then 2
    else 0
space_width (c ∷ d ∷ e ∷ _) =
    if leb 9 c && leb c 13 || c == 32
    then 1
    else if c == 0xC2 && (d == 0x85 || d == 0xA0)
    then 2
    else if c == 0xE1 && d == 0x9A && e == 0x80
        || c == 0xE2
          && d == 0x80
          && (leb 0x80 e && leb e 0x8A || e == 0xA8 || e == 0xA9 || e == 0xAF)
        || c == 0xE2 && d == 0x81 && e == 0x9F
        || c == 0xE3 && d == 0x80 && e == 0x80
    then 3
    else 0

abbrev pub flush : Bytes → List Bytes → List Bytes
flush [] rest = rest
flush (c ∷ s) rest = (c ∷ s) ∷ rest

-- The loop of `Fields`: the bytes of white space still to pass over, and the field at hand.
unfoldable pub fields_from : Bytes → ℕ → Bytes → List Bytes
fields_from [] skip cur = flush cur []
fields_from (c ∷ s) (suc skip) cur = fields_from s skip cur
fields_from (c ∷ s) zero cur = elim (space_width (c ∷ s)) [
  | zero ↦ fields_from s 0 (cur ++ c ∷ [])
  | suc width ↦ flush cur (fields_from s width [])
]

unfoldable pub fields : Bytes → List Bytes
unfolding fields_from space_width
fields s = fields_from s 0 []

-- `TrimRight(s, "\r\n")`
unfoldable pub trim_newline : Bytes → Bytes
trim_newline [] = []
trim_newline (c ∷ s) = elim (trim_newline s) [
  | [] ↦ if c == 13 || c == 10 then [] else c ∷ []
  | d ∷ t ↦ c ∷ d ∷ t
]

unfoldable pub cut_prefix : Bytes → Bytes → Option Bytes
cut_prefix [] s = some s
cut_prefix (p ∷ ps) [] = none
cut_prefix (p ∷ ps) (c ∷ s) = if p == c then cut_prefix ps s else none

abbrev pub is_some {ℓ} : {A : Type ℓ} → Option A → Bool
is_some none = false
is_some (some _) = true

unfoldable pub has_prefix : Bytes → Bytes → Bool
unfolding cut_prefix
has_prefix p s = is_some (cut_prefix p s)

abbrev grow : ℕ → List Bytes → List Bytes
grow x [] = (x ∷ []) ∷ []
grow x (piece ∷ pieces) = (x ∷ piece) ∷ pieces

-- `Split(s, c)` for a separator of one byte: empty pieces count.
unfoldable pub split : ℕ → Bytes → List Bytes
split c [] = [] ∷ []
split c (x ∷ s) = if x == c then [] ∷ split c s else grow x (split c s)

-- Whether a text is all white space, with the bytes of white space still to pass over.
unfoldable pub all_space : Bytes → ℕ → Bool
all_space [] skip = true
all_space (c ∷ s) (suc skip) = all_space s skip
all_space (c ∷ s) zero = elim (space_width (c ∷ s)) [ zero ↦ false | suc width ↦ all_space s width ]

unfoldable pub trim_left : Bytes → ℕ → Bytes
trim_left [] skip = []
trim_left (c ∷ s) (suc skip) = trim_left s skip
trim_left (c ∷ s) zero = elim (space_width (c ∷ s)) [ zero ↦ c ∷ s | suc width ↦ trim_left s width ]

unfoldable pub trim_right : Bytes → Bytes
unfolding all_space space_width
trim_right [] = []
trim_right (c ∷ s) = let rest = trim_right s in if all_space (c ∷ s) 0 then [] else c ∷ rest

-- `TrimSpace`
unfoldable pub trim_space : Bytes → Bytes
unfolding trim_left trim_right space_width
trim_space s = trim_right (trim_left s 0)

unfoldable pub has_suffix : Bytes → Bytes → Bool
has_suffix p s = leb (length p) (length s) && bytes_eq (drop (length s - length p) s) p

unfoldable pub trim_suffix : Bytes → Bytes → Bytes
unfolding has_suffix
trim_suffix p s = if has_suffix p s then take (length s - length p) s else s
