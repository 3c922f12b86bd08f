-- ===== src/Stream/Allowed.antt =====
-- `echoStream` with the closure `spend` of its session: what it writes within the budget, and how it
-- ends where a chunk goes past it.
use semantic_echo.Base.{
  ℕ, ◌+◌, ◌≤◌, ◌<◌, ◌^◌, ◌≡◌, refl, sym, ap, ◌∙◌, Bool, true, false, not, List, [], ◌∷◌, ◌++◌, none,
  some, length, arith, All, length-append, append-nil, append_assoc,
}
use semantic_echo.Base.Text.{Bytes}
use semantic_echo.Budgets.{daily_egress_ceiling}
use semantic_echo.Session.{Limits, Shared, budget_reached}
use semantic_echo.Session.Spending.{spend_echo_allows, spend_echo_stops}
use semantic_echo.Stream.{Round, one_round, echo_stream}
use semantic_echo.Stream.Copying.{incoming, nil_of_length, one_round_clean, one_round_denied}
use semantic_echo.Stream.Ending.{callback, HasData}

-- A read that brings bytes and no error, whose bytes `Write` takes.
abbrev pub Arrives : Round → Type 0
Arrives r = HasData r × (r.refused ≡ none) × (r.failed ≡ false)

-- The last round: the read fails, with bytes or without, and `Write` takes what it brought.
abbrev pub IsLast : Round → Type 0
IsLast r = (r.refused ≡ none) × (r.failed ≡ true)

module _ (l : Limits) (small : l.budget < 2 ^ 63) (clock : Shared → ℕ × ℕ) where
  -- The state `m'` behind the rounds `whole`, and what the loop does from there on.
  record Behind (m : Shared) (whole rs : List Round) (m' : Shared) : Type 0 where
    echoed : m'.echoed ≡ m.echoed + length (incoming whole)
    charged : m'.limits.echoed ≤ m.limits.echoed + length (incoming whole)
    stopped : m'.stopped ≡ m.stopped
    state :
        (echo_stream (callback l small clock) m (whole ++ rs)).state
        ≡ (echo_stream (callback l small clock) m' rs).state
    written :
        (echo_stream (callback l small clock) m (whole ++ rs)).written
        ≡ incoming whole ++ (echo_stream (callback l small clock) m' rs).written
    closed :
        (echo_stream (callback l small clock) m (whole ++ rs)).closed
        ≡ (echo_stream (callback l small clock) m' rs).closed

  round_within :
      (m : Shared) (r : Round)
      → Arrives r
      → m.echoed + length r.chunk ≤ l.budget
      → m.limits.echoed + length r.chunk < daily_egress_ceiling
      → one_round (callback l small clock) m r
        ≡ ((callback l small clock m (length r.chunk)).0, r.chunk, true)
  round_within m r (data_, taken, fine) within room =
      let allowed =
        spend_echo_allows l m (length r.chunk) (clock m).0 (clock m).1 small within room in
      rw (sym (ap not fine)) (one_round_clean (callback l small clock) m r data_ allowed.0 taken)

  whole-Behind :
      (m : Shared) (whole rs : List Round)
      → All Arrives whole
      → m.echoed + length (incoming whole) ≤ l.budget
      → m.limits.echoed + length (incoming whole) < daily_egress_ceiling
      → (m' : Shared) × Behind m whole rs m'
  unfolding echo_stream
  whole-Behind m [] rs all within room = (
    m,
    record {
      echoed = omega arith;
      charged = omega arith;
      stopped = refl;
      state = refl;
      written = refl;
      closed = refl;
    },
  )
  whole-Behind m (r ∷ whole) rs (arrives, all) within room =
      let n = length r.chunk in
      let size : length (incoming (r ∷ whole)) ≡ n + length (incoming whole) =
        length-append r.chunk (incoming whole) in
      let round = round_within m r arrives (omega (arith, size)) (omega (arith, size)) in
      let allowed =
        spend_echo_allows l m n (clock m).0 (clock m).1 small (omega (arith, size))
          (omega (arith, size)) in
      let m1 = (callback l small clock m n).0 in
      let (m', behind) =
        whole-Behind m1 whole rs all (omega (arith, size, allowed.1))
          (omega (arith, size, allowed.2)) in
      (
        m',
        record {
          echoed = omega (arith, behind.echoed, size, allowed.1);
          charged = omega (arith, behind.charged, size, allowed.2);
          stopped = behind.stopped ∙ allowed.3;
          state = rw round behind.state;
          written =
              rw round
                (ap (◌++◌ r.chunk) behind.written ∙ sym (append_assoc r.chunk (incoming whole) _));
          closed = rw round behind.closed;
        },
      )

  incoming-append : (rs rs' : List Round) → incoming (rs ++ rs') ≡ incoming rs ++ incoming rs'
  incoming-append [] rs' = refl
  incoming-append (r ∷ rs) rs' =
      ap (◌++◌ r.chunk) (incoming-append rs rs') ∙ sym (append_assoc r.chunk _ _)

  round_last :
      (m : Shared) (r : Round)
      → IsLast r
      → m.echoed + length r.chunk ≤ l.budget
      → m.limits.echoed + length r.chunk < daily_egress_ceiling
      → (one_round (callback l small clock) m r).1 ≡ r.chunk
        × ((one_round (callback l small clock) m r).2 ≡ false)
        × ((one_round (callback l small clock) m r).0.echoed ≡ m.echoed + length r.chunk)
  unfolding one_round
  round_last m r (taken, failed) within room = ground (
    arith,
    spend_echo_allows l m (length r.chunk) (clock m).0 (clock m).1 small within room,
    nil_of_length r.chunk,
  )

  -- A round after which the loop does not go on is its last.
  only_round :
      (m : Shared) (r : Round) (rs : List Round)
      → (one_round (callback l small clock) m r).2 ≡ false
      → let done = echo_stream (callback l small clock) m (r ∷ rs) in
        let (m', out, again) = one_round (callback l small clock) m r in
        (done.written ≡ out) × (done.closed ≡ true) × (done.state ≡ m')
  unfolding echo_stream
  only_round m r rs stays = (rw stays, rw stays, rw stays)

  -- Within its budget a session echoes everything: the bytes of the stream are all written back, in their
  -- order and nothing else, the stream is closed behind the read that fails, and the session has counted
  -- them. Each read but the last brings bytes and no error, the last fails, with bytes or without, every
  -- write succeeds, the bytes stay within what is left of the session's budget and below what is left of the
  -- day's ceiling, and no other goroutine spends in between.
  pub echo_stream_whole :
      (m : Shared) (whole : List Round) (last : Round)
      → All Arrives whole
      → IsLast last
      → m.echoed + length (incoming (whole ++ last ∷ [])) ≤ l.budget
      → m.limits.echoed + length (incoming (whole ++ last ∷ [])) < daily_egress_ceiling
      → let done = echo_stream (callback l small clock) m (whole ++ last ∷ []) in
        (done.written ≡ incoming (whole ++ last ∷ []))
        × (done.closed ≡ true)
        × (done.state.echoed ≡ m.echoed + length (incoming (whole ++ last ∷ [])))
  echo_stream_whole m whole last all is_last within room =
      let n = length (incoming whole) in
      let tail : incoming (whole ++ last ∷ []) ≡ incoming whole ++ last.chunk =
        incoming-append whole (last ∷ []) ∙ ap (◌++◌ (incoming whole)) (append-nil last.chunk) in
      let size : length (incoming (whole ++ last ∷ [])) ≡ n + length last.chunk =
        ap length tail ∙ length-append (incoming whole) last.chunk in
      let (m', behind) =
        whole-Behind m whole (last ∷ []) all (omega (arith, size)) (omega (arith, size)) in
      let (out, stays, counted) =
        round_last m' last is_last (omega (arith, size, behind.echoed))
          (omega (arith, size, behind.charged)) in
      let (written, closed, state) = only_round m' last [] stays in
      (
        behind.written ∙ ap (◌++◌ (incoming whole)) (written ∙ out) ∙ sym tail,
        behind.closed ∙ closed,
        ap (λ (t : Shared). t.echoed) (behind.state ∙ state)
            ∙ omega (arith, counted, behind.echoed, size),
      )

  -- Past its budget a stream ends with a reason: the chunks that still fit are written back and nothing
  -- else, the stream is closed, whatever the peer sends behind, and "echo budget reached" waits for the
  -- goroutine that closes the session. Each of the chunks that fit comes without an error and is written,
  -- they stay below what is left of the day's ceiling, the next chunk goes past the session's budget, fewer
  -- than 2 ^ 63 bytes are counted, no reason waits when the stream starts, and no other goroutine spends or
  -- stops in between.
  pub echo_stream_past :
      (m : Shared) (whole : List Round) (past : Round) (later : List Round)
      → All Arrives whole
      → m.echoed + length (incoming whole) ≤ l.budget
      → m.limits.echoed + length (incoming whole) < daily_egress_ceiling
      → l.budget < m.echoed + length (incoming whole) + length past.chunk
      → m.echoed + length (incoming whole) + length past.chunk < 2 ^ 63
      → m.stopped ≡ none
      → let done = echo_stream (callback l small clock) m (whole ++ past ∷ later) in
        (done.written ≡ incoming whole)
        × (done.closed ≡ true)
        × (done.state.stopped ≡ some budget_reached)
  echo_stream_past m whole past later all within room over fits nothing =
      let n = length past.chunk in
      let (m', behind) = whole-Behind m whole (past ∷ later) all within room in
      let stopped =
        spend_echo_stops l m' n (clock m').0 (clock m').1 small (omega (arith, behind.echoed))
          (omega (arith, behind.echoed)) (behind.stopped ∙ nothing) in
      let round = one_round_denied (callback l small clock) m' past (omega arith) stopped.0 in
      let (written, closed, state) =
        only_round m' past later (ap (λ (t : Shared × Bytes × Bool). t.2) round) in
      (
        behind.written
            ∙ ap (◌++◌ (incoming whole)) (written ∙ ap (λ (t : Shared × Bytes × Bool). t.1) round)
            ∙ append-nil (incoming whole),
        behind.closed ∙ closed,
        ap (λ (t : Shared). t.stopped) (behind.state ∙ state) ∙ rw round stopped.1,
      )
