-- ===== src/Stream/Copying.antt =====
-- `echoStream`: what the loop writes against what it read.
use semantic_echo.Base.{
  ◌<◌, ℕ, ◌≡◌, refl, Bool, true, false, not, List, [], ◌∷◌, ◌++◌, none, ltb, length, arith,
}
use semantic_echo.Base.Text.{Bytes}
use semantic_echo.Stream.{Round}
use semantic_echo.Stream.{one_round}

-- All that the reads of a script bring.
abbrev pub incoming : List Round → Bytes
incoming [] = []
incoming (r ∷ rs) = r.chunk ++ incoming rs

pub nil_of_length : (s : Bytes) → ltb 0 (length s) ≡ false → s ≡ []
nil_of_length [] h = refl
nil_of_length (x ∷ s) h = ground arith

module _ {ℓ} {S : Type ℓ} (spend : S → ℕ → S × Bool) where
  -- A round on which `Write` succeeds writes its chunk where `spend` returns true, and the loop goes on
  -- unless `Read` failed.
  pub one_round_clean :
      (s : S) (r : Round)
      → 0 < length r.chunk
      → (spend s (length r.chunk)).1 ≡ true
      → r.refused ≡ none
      → one_round spend s r ≡ ((spend s (length r.chunk)).0, r.chunk, not r.failed)
  unfolding one_round
  one_round_clean s r data_ allowed e = ground arith

  -- Where `spend` returns false, nothing is written and the loop ends.
  pub one_round_denied :
      (s : S) (r : Round)
      → 0 < length r.chunk
      → (spend s (length r.chunk)).1 ≡ false
      → one_round spend s r ≡ ((spend s (length r.chunk)).0, [], false)
  unfolding one_round
  one_round_denied s r data_ denied = ground arith
