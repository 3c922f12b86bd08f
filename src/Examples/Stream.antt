-- ===== src/Examples/Stream.antt =====
-- One stream: "abc", then "d" together with the end of the stream.
use semantic_echo.Base.{ℕ, ◌+◌, ◌≡◌, refl, true, false, List, [], ◌∷◌, none, some}
use semantic_echo.Base.Text.{codes}
use semantic_echo.Stream.{Round, echo_stream}
use semantic_echo.Stream.Allowed.{echo_stream_whole, echo_stream_past}
use semantic_echo.Base.{◌≤◌, arith, length}
use semantic_echo.Budgets.{fresh}
use semantic_echo.Session.{budget_reached, Limits, Shared, start}
use semantic_echo.Stream.Ending.{callback, echo_stream_ends}

-- A peer that sends "abcd" and ends its stream.
abbrev abc : Round
abc = record { chunk = codes "abc"; failed = false; refused = none }

abbrev d : Round
d = record { chunk = codes "d"; failed = true; refused = none }

abbrev script : List Round
script = abc ∷ d ∷ []

-- A session with a budget of two bytes, and a peer that sends three times.
abbrev two : Limits
two = record { budget = 2; lifetime = 0 }

abbrev opened : Shared
opened = (start (fresh 0)).shared

abbrev pushing : List Round
pushing =
    record { chunk = codes "a"; failed = false; refused = none }
    ∷ record { chunk = codes "b"; failed = false; refused = none }
    ∷ record { chunk = codes "c"; failed = false; refused = none }
    ∷ []

abbrev noon : Shared → ℕ × ℕ
noon m = (0, 0)

echo_stream_ends_example :
    ((echo_stream (callback two (omega arith) noon) opened pushing).closed ≡ true)
    × (0 + length (echo_stream (callback two (omega arith) noon) opened pushing).written ≤ 2)
echo_stream_ends_example =
    echo_stream_ends two (omega arith) noon opened pushing (omega arith) (omega arith) (omega arith)
      (omega arith)

abbrev five : Limits
five = record { budget = 5; lifetime = 0 }

echo_stream_whole_example :
    let done = echo_stream (callback five (omega arith) noon) opened script in
    (done.written ≡ codes "abcd") × (done.closed ≡ true) × (done.state.echoed ≡ 0 + 4)
echo_stream_whole_example =
    echo_stream_whole five (omega arith) noon opened (abc ∷ []) d ((omega arith, refl, refl), tt)
      (refl, refl) (omega arith) (omega arith)

-- "abc" fits into five bytes, and a second "abc" does not.
echo_stream_past_example :
    let done = echo_stream (callback five (omega arith) noon) opened (abc ∷ abc ∷ script) in
    (done.written ≡ codes "abc") × (done.closed ≡ true) × (done.state.stopped ≡ some budget_reached)
echo_stream_past_example =
    echo_stream_past five (omega arith) noon opened (abc ∷ []) abc script
      ((omega arith, refl, refl), tt) (omega arith) (omega arith) (omega arith) (omega arith) refl
