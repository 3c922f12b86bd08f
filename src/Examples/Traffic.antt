-- ===== src/Examples/Traffic.antt =====
-- A process that echoes ten bytes to its client.
use semantic_echo.Base.{length, ◌+◌, ◌*◌, ◌<◌, ◌≡◌, refl, true, false, [], ◌∷◌, arith, sum_of}
use semantic_echo.Base.Word.{add64, lt64}
use semantic_echo.Budgets.{daily_egress_ceiling, day, roll, charge, spend}
use semantic_echo.Budgets
use semantic_echo.Address.{address_of}
use semantic_echo.Endpoint.{quic, connect, session, refused, declined, closed}
use semantic_echo.Endpoint
use semantic_echo.Session.{
  Session, Shared, reading, counted, charged, limits_for, start, works, count, write,
}
use semantic_echo.Session
use semantic_echo.Server.{live, view, Server, runs, Reach, next}
use semantic_echo.Server.Events.{observed_as, open_from, waits, started, log_accounts}
use semantic_echo.Server.Egress.{given, openings, paid_in, Spaced, given-lt-ceiling}
use semantic_echo.Examples.Server.{client, port, asking, waiting, serving, serving-Reach}

abbrev pub serves : Session → Server
serves t = record serving {
  limits = t.shared.limits;
  visits = live port (address_of asking.remote) t ∷ [];
}

abbrev pub fresh_session : Session
fresh_session = view serving.limits (start waiting.limits)

abbrev pub has_read : Session
has_read = record fresh_session {
  shared = record fresh_session.shared { echoed = add64 0 10; received = 10 };
  workers = counted 10 (add64 0 10) false ∷ [];
}

abbrev pub may_write : Session
may_write = record has_read {
  shared = record has_read.shared { limits = (spend serving.limits 10 2 2).0 };
  workers = charged 10 false ∷ [];
}

abbrev pub has_written : Session
has_written = record may_write {
  shared = record may_write.shared { sent = 10 };
  workers = reading ∷ [];
}

pub small : lt64 (limits_for false).budget (add64 0 10) ≡ false
unfolding lt64 add64
small = refl

pub proceeds : (spend serving.limits 10 2 2).1 ≡ true
unfolding spend Budgets.charge roll lt64 add64 Endpoint.finish_upgrade Endpoint.open_slot
    Endpoint.acquire_probe Endpoint.session_cap Budgets.admit semantic_echo.Counts.get
proceeds = refl

abbrev pub echoed-Reach : Reach 0 (serves has_written)
echoed-Reach =
    next
      (next {t = serves may_write}
        (next {t = serves has_read} serving-Reach (
          runs port (address_of asking.remote) (start waiting.limits) [] [] refl
            (works [] [] refl (count 10 false))))
        (runs port (address_of asking.remote) has_read [] [] refl
          (works [] [] refl (Session.charge 2 2 small proceeds))))
      (runs port (address_of asking.remote) may_write [] [] refl (works [] [] refl write))

given-lt-ceiling_example :
    (sum_of given (serves has_written).visits
      < length (openings echoed-Reach) * daily_egress_ceiling)
    × (paid_in echoed-Reach < daily_egress_ceiling)
    × Spaced (openings echoed-Reach)
given-lt-ceiling_example =
    given-lt-ceiling 0 (serves has_written) echoed-Reach (omega arith)
      (((((tt, omega arith), tt), tt), omega arith), tt)

log_accounts_example :
    (observed_as quic client (serves has_written).events
      ≡ observed_as closed client (serves has_written).events
        + open_from client (serves has_written).connections)
    × (observed_as connect client (serves has_written).events
        ≡ observed_as declined client (serves has_written).events
          + observed_as refused client (serves has_written).events
          + observed_as session client (serves has_written).events
          + sum_of (waits client) (serves has_written).visits)
    × (observed_as session client (serves has_written).events
        ≡ sum_of (started client) (serves has_written).visits)
log_accounts_example = log_accounts 0 (serves has_written) client echoed-Reach
