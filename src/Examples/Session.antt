-- ===== src/Examples/Session.antt =====
-- A run of `serveEcho`: an echo of five bytes.
use semantic_echo.Base.{◌^◌, ◌≤◌, refl, false, [], ◌∷◌, arith}
use semantic_echo.Base.Text.{Bytes, codes}
use semantic_echo.Base.Word.{add64, lt64}
use semantic_echo.Budgets.{fresh, spend}
use semantic_echo.Examples.Budgets.{spend-fresh}
use semantic_echo.Session.{
  reading, counted, charged, limits_for, Session, count, charge, write, works, start, Reach, begin,
  next,
}
use semantic_echo.Session.Budget.{sent-le-budget}

abbrev client : Bytes
client = codes "10.0.0.7"

-- The session behind a read of five bytes.
abbrev five_counted : Session
five_counted = record (start (fresh 0)) {
  shared = record (start (fresh 0)).shared { echoed = 5; received = 5 };
  workers = counted 5 5 false ∷ [];
}

abbrev five_charged : Session
five_charged = record five_counted {
  shared = record five_counted.shared { limits = (spend (fresh 0) 5 0 0).0 };
  workers = charged 5 false ∷ [];
}

abbrev five_sent : Session
five_sent = record five_charged {
  shared = record five_charged.shared { sent = 5 };
  workers = reading ∷ [];
}

five_sent-Reach : Reach (limits_for false) client (fresh 0) five_sent
unfolding add64 lt64
five_sent-Reach =
    next
      (next (next {t = five_counted} begin (works [] [] refl (count 5 false)))
        (works [] [] refl (charge 0 0 refl spend-fresh)))
      (works [] [] refl write)

sent-le-budget_example : (five_sent.shared.sent ≤ 2 ^ 20) × (five_sent.shared.sent ≤ 5)
sent-le-budget_example =
    sent-le-budget false client (fresh 0) five_sent five_sent-Reach (omega arith)
