-- ===== src/Session/Spending.antt =====
-- The closure `spend` of `serveEcho`, as one function of what the session shares: a call that no other
-- goroutine interrupts.
use semantic_echo.Base.{
  ℕ, ◌+◌, ◌≤◌, ◌<◌, ◌^◌, ◌≡◌, Bool, true, false, not, if◌then◌else◌, arith, none, some,
}
use semantic_echo.Base.Word.{add64, lt64, add64_exact, lt64_exact}
use semantic_echo.Budgets.{Budgets, spend, charge, roll, daily_egress_ceiling}
use semantic_echo.Session.{Limits, Shared, stop, budget_reached, ceiling_reached}

-- `echoed.Add(int64(n))`
abbrev pub add_echoed : Shared → ℕ → Shared
add_echoed m n = record m { echoed = add64 m.echoed n; received = m.received + n }

-- `seen` and `now` are the readings of the clock that `limits.spend` takes.
unfoldable pub spend_echo : Limits → Shared → ℕ → ℕ → ℕ → Shared × Bool
spend_echo l m n seen now =
    let counted = add_echoed m n in
    let (b, proceed, logged) = spend counted.limits n seen now in
    if lt64 l.budget counted.echoed
    then (stop counted budget_reached, false)
    else if not proceed
    then (stop (record counted { limits = b }) ceiling_reached, false)
    else (record counted { limits = b }, true)

-- A call that returns true has counted its bytes and stayed within the budget.
pub spend_echo-le :
    (l : Limits) (m : Shared) (n seen now : ℕ)
    → l.budget < 2 ^ 63
    → m.echoed + n < 2 ^ 63
    → (spend_echo l m n seen now).1 ≡ true
    → ((spend_echo l m n seen now).0.echoed ≡ m.echoed + n) × (m.echoed + n ≤ l.budget)
unfolding spend_echo
spend_echo-le l m n seen now small fits e =
    ground (arith, add64_exact m.echoed n, lt64_exact l.budget (add64 m.echoed n))

charge_allows :
    (b : Budgets) (n : ℕ)
    → b.echoed + n < daily_egress_ceiling
    → ((charge b n).1 ≡ true) × ((charge b n).0.echoed ≡ b.echoed + n)
unfolding charge
charge_allows b n room =
    let exact = add64_exact b.echoed n (omega arith) in
    ground (arith, exact, lt64_exact (add64 b.echoed n) daily_egress_ceiling)

roll_le : (b : Budgets) (seen now : ℕ) → (roll b seen now).echoed ≤ b.echoed
unfolding roll
roll_le b seen now = ground arith

spend_charges :
    (b : Budgets) (n seen now : ℕ)
    → b.echoed + n < daily_egress_ceiling
    → ((spend b n seen now).1 ≡ true) × ((spend b n seen now).0.echoed ≤ b.echoed + n)
unfolding spend
spend_charges b n seen now room =
    let less = roll_le b seen now in
    let (proceeds, charged) = charge_allows (roll b seen now) n (omega (arith, less)) in
    (proceeds, omega (arith, charged, less))

-- A call within the budget of the session and the ceiling of the day returns true.
pub spend_echo_allows :
    (l : Limits) (m : Shared) (n seen now : ℕ)
    → l.budget < 2 ^ 63
    → m.echoed + n ≤ l.budget
    → m.limits.echoed + n < daily_egress_ceiling
    → let (m', proceed) = spend_echo l m n seen now in
      (proceed ≡ true)
      × (m'.echoed ≡ m.echoed + n)
      × (m'.limits.echoed ≤ m.limits.echoed + n)
      × (m'.stopped ≡ m.stopped)
unfolding spend_echo
spend_echo_allows l m n seen now small within room = ground (
  arith,
  add64_exact m.echoed n,
  lt64_exact l.budget (add64 m.echoed n),
  spend_charges m.limits n seen now room,
)

-- A call that goes past the budget of the session returns false, and offers its reason.
pub spend_echo_stops :
    (l : Limits) (m : Shared) (n seen now : ℕ)
    → l.budget < 2 ^ 63
    → m.echoed + n < 2 ^ 63
    → l.budget < m.echoed + n
    → m.stopped ≡ none
    → let (m', proceed) = spend_echo l m n seen now in
      (proceed ≡ false) × (m'.stopped ≡ some budget_reached)
unfolding spend_echo
spend_echo_stops l m n seen now small fits past nothing =
    ground (arith, add64_exact m.echoed n, lt64_exact l.budget (add64 m.echoed n))
