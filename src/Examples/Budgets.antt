-- ===== src/Examples/Budgets.antt =====
-- Histories of `limits`: two sessions of one address, an echo, and the ceiling.
use semantic_echo.Base.{◌+◌, ◌≤◌, ◌≡◌, refl, true, false, List, [], ◌∷◌, arith, All}
use semantic_echo.Base.Text.{Bytes, codes}
use semantic_echo.Base.Word.{add64, lt64}
use semantic_echo.Budgets.{
  Budgets, daily_egress_ceiling, fresh, roll, charge, spend, Call, acquires, releases, spends, run,
  replies,
}
use semantic_echo.Budgets.Invariant.{IsValid, run-fresh-IsValid}
use semantic_echo.Budgets.Leases.{Holds, leases, run-fresh-Holds}
use semantic_echo.Budgets.Window.{Refused, warnings, replies-Refused, warnings-le-one}
use semantic_echo.Endpoint.{Request, Listener}

abbrev client : Bytes
client = codes "10.0.0.7"

pub spend-fresh : (spend (fresh 0) 5 0 0).1 ≡ true
unfolding spend charge roll add64 lt64
spend-fresh = refl

-- Two sessions of one client, an echo, and the end of both.
abbrev visit : List Call
visit =
    acquires client 1 1
    ∷ acquires client 2 2
    ∷ spends 5 3 3
    ∷ releases client
    ∷ releases client
    ∷ []

run-fresh-IsValid_example : IsValid (run (fresh 0) visit)
run-fresh-IsValid_example = run-fresh-IsValid 0 visit

run-fresh-Holds_example : Holds (run (fresh 0) visit) (leases (fresh 0) [] visit)
run-fresh-Holds_example = run-fresh-Holds 0 visit

-- A window whose ceiling is reached.
abbrev spent : Budgets
spent = record (fresh 0) { echoed = daily_egress_ceiling }

replies-Refused_example : All Refused (replies spent (acquires client 1 1 ∷ spends 5 2 2 ∷ []))
replies-Refused_example =
    replies-Refused (acquires client 1 1 ∷ spends 5 2 2 ∷ []) spent (omega arith) (omega arith)
      (omega arith, (omega arith, tt))

warnings-le-one_example : warnings (replies spent (spends 5 1 1 ∷ spends 5 2 2 ∷ [])) + 0 ≤ 1
warnings-le-one_example =
    warnings-le-one (spends 5 1 1 ∷ spends 5 2 2 ∷ []) spent (omega arith, (omega arith, tt))

abbrev main_port : Listener
main_port = record { port = 4433; probe = false }

abbrev asking : Request
asking = record { remote = codes "10.0.0.7:50123"; origin = codes "https://example.com" }
