-- ===== src/Observe/Lines.antt =====
-- The lines of the files of observe.go, as `readObservations` cuts them.
use semantic_echo.Base.{
  ℕ, ◌≡◌, ◌≢◌, refl, false, List, [], ◌∷◌, ◌++◌, ◌==◌, arith, inl, inr, All, Bool-cases,
}
use mathlib.Core.List.{Memᴰ}
use mathlib.Core.List.Memᴰ
use semantic_echo.Base.Text.{Bytes}
use semantic_echo.Strings.{split}
use semantic_echo.Observe.{newline}

-- Nothing, or lines that end in their newline.
abbrev pub IsWhole : Bytes → Type 0
IsWhole [] = Unit
IsWhole (x ∷ []) = x ≡ newline
IsWhole (x ∷ y ∷ s) = IsWhole (y ∷ s)

pub IsWhole-append : (s t : Bytes) → IsWhole s → IsWhole t → IsWhole (s ++ t)
IsWhole-append [] t h k = k
IsWhole-append (x ∷ []) [] h k = h
IsWhole-append (x ∷ []) (y ∷ t) h k = k
IsWhole-append (x ∷ y ∷ s) t h k = IsWhole-append (y ∷ s) t h k

pub IsWhole-line : (line : Bytes) → IsWhole (line ++ newline ∷ [])
IsWhole-line [] = refl
IsWhole-line (x ∷ []) = refl
IsWhole-line (x ∷ y ∷ s) = IsWhole-line (y ∷ s)

-- Behind whole lines the next line stands alone.
split_whole :
    (x : ℕ) (s t : Bytes)
    → IsWhole (x ∷ s)
    → (p : Bytes) × (ps : List Bytes) × (split newline (x ∷ (s ++ t)) ≡ p ∷ (ps ++ split newline t))
unfolding split
split_whole x [] t h = ([], [], ground arith)
split_whole x (y ∷ s) t h =
    let (p, ps, e) = split_whole y s t h in
    elim (Bool-cases (x == newline)) [
      | inl ends ↦ ([], p ∷ ps, rw (ends, e) refl)
      | inr goes ↦ (x ∷ p, ps, rw (goes, e) refl)
    ]

split_line :
    (line : Bytes)
    → All (λ x. x ≢ newline) line
    → split newline (line ++ newline ∷ []) ≡ line ∷ [] ∷ []
unfolding split
split_line [] h = refl
split_line (x ∷ line) (n, h) =
    let goes : (x == newline) ≡ false = ground arith in rw (goes, split_line line h) refl

pub split_behind :
    (s line : Bytes)
    → IsWhole s
    → All (λ x. x ≢ newline) line
    → Memᴰ line (split newline (s ++ (line ++ newline ∷ [])))
split_behind [] line h n = rw (split_line line n) (Memᴰ.head refl)
split_behind (x ∷ s) line h n =
    let (p, ps, e) = split_whole x s (line ++ newline ∷ []) h in
    rw (e, split_line line n) (Memᴰ.tail (Memᴰ.append_right ps (Memᴰ.head refl)))

pub split_line_then :
    (line t : Bytes)
    → All (λ x. x ≢ newline) line
    → split newline ((line ++ newline ∷ []) ++ t) ≡ line ∷ split newline t
unfolding split
split_line_then [] t h = refl
split_line_then (x ∷ line) t (n, h) =
    let goes : (x == newline) ≡ false = ground arith in rw (goes, split_line_then line t h) refl
