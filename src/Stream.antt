-- ===== src/Stream.antt =====
-- `echoStream` (main.go, legacy/main.go): the loop of one stream, run to the end of a script of what
-- its reads and writes do. The callback `spend` passes the state that it shares explicitly.
pub mod Allowed
pub mod Copying
pub mod Ending
use semantic_echo.Base.{
  ℕ, ◌+◌, ◌≤◌, ◌<◌, ◌≡◌, refl, Bool, true, false, not, List, [], ◌∷◌, ◌++◌, Option, none, some,
  if◌then◌else◌, ltb, length, take,
}
use semantic_echo.Base.Text.{Bytes}

-- One round: the bytes that `Read` returns, whether it returns an error with them, and, if `Write`
-- fails on them, how many it had written.
pub record Round : Type 0 where
  pub chunk : Bytes
  pub failed : Bool
  pub refused : Option ℕ

-- What is left when the loop returns: the shared state, the bytes written, and whether the stream
-- was closed. It is not closed while the script ends in a `Read` that has not returned.
pub record Result {ℓ} (S : Type ℓ) : Type ℓ where
  pub state : S
  pub written : Bytes
  pub closed : Bool

module _ {ℓ} {S : Type ℓ} (spend : S → ℕ → S × Bool) where
  -- One round of the loop: the state behind it, what it writes, and whether the loop goes on.
  unfoldable pub one_round : S → Round → S × Bytes × Bool
  one_round s r =
      let (s', proceed) = spend s (length r.chunk) in
      if ltb 0 (length r.chunk)
      then (if not proceed then (s', [], false) else elim r.refused [
        | some k ↦ (s', take k r.chunk, false)
        | none ↦ (s', r.chunk, not r.failed)
      ])
      else (s, [], not r.failed)

  unfoldable pub echo_stream : S → List Round → Result S
  echo_stream s [] = record { state = s; written = []; closed = false }
  echo_stream s (r ∷ rs) =
      let (s', out, again) = one_round s r in
      let rest = echo_stream s' rs in
      if again
      then record rest { written = out ++ rest.written }
      else record { state = s'; written = out; closed = true }
