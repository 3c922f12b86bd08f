-- ===== src/Examples/Server.antt =====
-- A process that serves one client: a request, its upgrade, an echo of nothing, and the end.
use semantic_echo.Base.{
  sum_of, ℕ, ◌≤◌, ◌≡◌, refl, false, [], ◌∷◌, ◌++◌, none, some, ◌⊎◌, inr, arith, All,
}
use mathlib.Core.List.{Memᴰ}
use semantic_echo.Base.Text.{Bytes, codes}
use semantic_echo.Base.Word.{lt64}
use semantic_echo.Counts.{get}
use semantic_echo.Budgets.{fresh, admit, roll, release}
use semantic_echo.Address.{address_of}
use semantic_echo.Endpoint.{
  Request, Listener, acquire_probe, session_cap, open_slot, finish_upgrade,
}
use semantic_echo.Session.{
  Session, closing, closed, limits_for, lifetime_reached, start, elapses, expires, releases,
}
use semantic_echo.Session.Closing.{IsLimit}
use semantic_echo.Server.{
  upgrading, live, view, Server, arrives, upgrades, runs, Reach, booted, next,
}
use semantic_echo.Server.Holding.{holds, probes}
use semantic_echo.Server.Slots.{held-le-cap}
use semantic_echo.Server.Sessions.{session_closes}
use semantic_echo.Server.Draining.{Steps, IsIdle, drained}

abbrev pub client : Bytes
client = codes "10.0.0.7"

abbrev pub port : Listener
port = record { port = 4433; probe = false }

abbrev pub asking : Request
asking = record { remote = codes "10.0.0.7:50123"; origin = [] }

pub asking-granted : (open_slot port (fresh 0) asking 1 1).1 ≡ none
unfolding open_slot acquire_probe session_cap admit roll get lt64
asking-granted = refl

-- The slot is taken.
abbrev pub waiting : Server
waiting = record {
  connections = [];
  limits = (open_slot port (fresh 0) asking 1 1).0;
  visits = upgrading port asking ∷ [];
  events = (open_slot port (fresh 0) asking 1 1).2;
}

abbrev pub serving : Server
serving = record {
  connections = [];
  limits = (finish_upgrade port waiting.limits asking none).0;
  visits = live port (address_of asking.remote) (start waiting.limits) ∷ [];
  events = waiting.events ++ (finish_upgrade port waiting.limits asking none).2;
}

abbrev pub serving-Reach : Reach 0 serving
serving-Reach =
    next (next {t = waiting} booted (arrives port asking 1 1 asking-granted))
      (upgrades port asking [] [] refl)

held-le-cap_example :
    (get serving.limits.sessions client ≡ sum_of (holds client) serving.visits)
    × (sum_of (holds client) serving.visits ≤ 4)
    × (sum_of (probes client) serving.visits ≤ 1)
held-le-cap_example = held-le-cap 0 serving client serving-Reach

-- Ten minutes later, and closed.
abbrev lifetime : ℕ
lifetime = (limits_for false).lifetime

abbrev old : Session
old = record (view serving.limits (start waiting.limits)) { elapsed = lifetime }

abbrev expired : Session
expired = record old { closer = closing (some lifetime_reached) }

abbrev shut : Session
shut = record old {
  shared = record old.shared { limits = release old.shared.limits (address_of asking.remote) };
  closer = closed (some lifetime_reached);
}

abbrev late : Server
late = record serving { visits = live port (address_of asking.remote) old ∷ [] }

abbrev expiring : Server
expiring = record late { visits = live port (address_of asking.remote) expired ∷ [] }

abbrev pub over : Server
over = record {
  connections = [];
  limits = shut.shared.limits;
  visits = live port (address_of asking.remote) shut ∷ [];
  events = serving.events;
}

pub over-Reach : Reach 0 over
over-Reach =
    next
      (next {t = expiring}
        (next {t = late} serving-Reach (
          runs port (address_of asking.remote) (start waiting.limits) [] [] refl
            (elapses lifetime)))
        (runs port (address_of asking.remote) old [] [] refl (expires refl (omega arith))))
      (runs port (address_of asking.remote) expired [] [] refl
        (releases (some lifetime_reached) refl))

session_closes_example :
    ((none ≡ some lifetime_reached) × IsLimit lifetime_reached)
    ⊎ ((lifetime_reached ≡ lifetime_reached) × ((limits_for false).lifetime ≤ lifetime))
session_closes_example =
    session_closes 0 over port (address_of asking.remote) shut lifetime_reached over-Reach
      (Memᴰ.head refl) (inr refl)

drained_example : (t : Server) × Steps serving t × All IsIdle t.visits × (t.limits.sessions ≡ [])
drained_example = drained 0 serving serving-Reach
