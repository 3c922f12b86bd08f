-- ===== src/Stream/Ending.antt =====
-- `echoStream` with the closure `spend` of its session: how many rounds it can make, and how much it
-- can write.
use semantic_echo.Base.{
  ℕ, ◌+◌, ◌≤◌, ◌<◌, ◌^◌, ◌≡◌, refl, Bool, true, List, [], ◌∷◌, Option, none, some, length, take,
  arith, All, Bool-cases, inl, inr, length-append, take-append-drop, drop, ap,
}
use semantic_echo.Base.Text.{Bytes}
use semantic_echo.Session.{Limits, Shared}
use semantic_echo.Session.Spending.{spend_echo, spend_echo-le}
use semantic_echo.Stream.{Round, one_round, echo_stream}
use semantic_echo.Stream.Copying.{incoming}

-- What `Write` takes of a chunk.
abbrev write_part : Option ℕ → Bytes → Bytes
write_part none s = s
write_part (some k) s = take k s

abbrev pub HasData : Round → Type 0
HasData r = 0 < length r.chunk

take_part : (refused : Option ℕ) (s : Bytes) → length (write_part refused s) ≤ length s
take_part none s = omega arith
take_part (some k) s =
    omega (arith, length-append (take k s) (drop k s), ap length (take-append-drop k s))

module _ (l : Limits) (small : l.budget < 2 ^ 63) (clock : Shared → ℕ × ℕ) where
  -- The callback of `echoStream`: the clock is read at each call.
  abbrev pub callback : Shared → ℕ → Shared × Bool
  callback m n = spend_echo l m n (clock m).0 (clock m).1

  one_round_again :
      (m : Shared) (r : Round)
      → HasData r
      → m.echoed + length r.chunk < 2 ^ 63
      → (one_round callback m r).2 ≡ true
      → ((one_round callback m r).0.echoed ≡ m.echoed + length r.chunk)
        × (m.echoed + length r.chunk ≤ l.budget)
        × ((one_round callback m r).1 ≡ r.chunk)
  unfolding one_round
  one_round_again m r data_ fits again =
      ground (arith, spend_echo-le l m (length r.chunk) (clock m).0 (clock m).1 small)

  one_round_written :
      (m : Shared) (r : Round)
      → m.echoed ≤ l.budget
      → m.echoed + length r.chunk < 2 ^ 63
      → m.echoed + length (one_round callback m r).1 ≤ l.budget
  unfolding one_round
  one_round_written m r below fits = ground (
    arith,
    spend_echo-le l m (length r.chunk) (clock m).0 (clock m).1 small,
    take_part r.refused r.chunk,
  )

  echo_stream_closed :
      (m : Shared) (rs : List Round)
      → m.echoed ≤ l.budget
      → m.echoed + length (incoming rs) < 2 ^ 63
      → All HasData rs
      → l.budget < m.echoed + length rs
      → (echo_stream callback m rs).closed ≡ true
  unfolding echo_stream
  echo_stream_closed m [] below fits d many = absurd (omega arith)
  echo_stream_closed m (r ∷ rs) below fits (d, ds) many =
      elim (Bool-cases (one_round callback m r).2) [
        | inl again ↦
            let fits' : m.echoed + length r.chunk < 2 ^ 63 =
              omega (arith, length-append r.chunk (incoming rs)) in
            let (counted, below', same) = one_round_again m r d fits' again in
            rw again (
              echo_stream_closed (one_round callback m r).0 rs (omega (arith, counted))
                (omega (arith, counted, length-append r.chunk (incoming rs))) ds
                (omega (arith, counted)))
        | inr stops ↦ rw stops refl
      ]

  echo_stream_written :
      (m : Shared) (rs : List Round)
      → m.echoed ≤ l.budget
      → m.echoed + length (incoming rs) < 2 ^ 63
      → All HasData rs
      → m.echoed + length (echo_stream callback m rs).written ≤ l.budget
  unfolding echo_stream
  echo_stream_written m [] below fits d = omega arith
  echo_stream_written m (r ∷ rs) below fits (d, ds) =
      let fits' : m.echoed + length r.chunk < 2 ^ 63 =
        omega (arith, length-append r.chunk (incoming rs)) in
      elim (Bool-cases (one_round callback m r).2) [
        | inl again ↦
            let (counted, below', same) = one_round_again m r d fits' again in
            let m' = (one_round callback m r).0 in
            let ih =
              echo_stream_written m' rs (omega (arith, counted))
                (omega (arith, counted, length-append r.chunk (incoming rs))) ds in
            rw (again, same)
              (omega
                (arith, ih, counted, length-append r.chunk (echo_stream callback m' rs).written))
        | inr stops ↦ rw stops (one_round_written m r below fits')
      ]

  -- The loop ends whatever the peer sends: if a session within its budget makes more reads with data
  -- than its budget has bytes left, the stream is closed, and what was written with what the session had
  -- echoed stays within the budget. Every read of the script brings data, and fewer than 2 ^ 63 bytes
  -- are received in all.
  pub echo_stream_ends :
      (m : Shared) (rs : List Round)
      → m.echoed ≤ l.budget
      → m.echoed + length (incoming rs) < 2 ^ 63
      → All HasData rs
      → l.budget < m.echoed + length rs
      → ((echo_stream callback m rs).closed ≡ true)
        × (m.echoed + length (echo_stream callback m rs).written ≤ l.budget)
  echo_stream_ends m rs below fits d many =
      (echo_stream_closed m rs below fits d many, echo_stream_written m rs below fits d)
