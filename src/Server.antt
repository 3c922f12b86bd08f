-- ===== src/Server.antt =====
-- A whole process: the handlers of all its listeners (main.go, legacy/main.go) and the sessions that
-- they start, over one `limits` and one log of observations, interleaved in any order.
-- A handler is two steps, for other goroutines run between `acquire` and what follows `Upgrade`. A
-- step of a session is one of Session.Step, on the `limits` that all of them share.
pub mod Holding
pub mod Slots
pub mod Sessions
pub mod Draining
pub mod Events
pub mod Ports
pub mod Metering
pub mod Egress
use semantic_echo.Base.{ℕ, ◌≡◌, Bool, List, [], ◌∷◌, ◌++◌, Option, none, some}
use semantic_echo.Base.Text.{Bytes}
use semantic_echo.Budgets.{Budgets, fresh}
use semantic_echo.Address.{address_of}
use semantic_echo.Endpoint.{
  Event, Answer, Request, Listener, connection_opened, connection_closed, open_slot, finish_upgrade,
}
use semantic_echo.Session
use semantic_echo.Session.{Session, limits_for, start}

-- A request that holds a slot: its upgrade runs, or its session does. `limits` of the session is the
-- server's, and stands in the session only as its last step left it.
pub data Visit : Type 0 where
  upgrading : (l : Listener) (r : Request) → Visit
  live : (l : Listener) (address : Bytes) (s : Session) → Visit

-- A connection of QUIC, its listener and remote address, is open from `ConnContext` until its context
-- is done.
pub record Server : Type 0 where
  pub limits : Budgets
  pub connections : List (Listener × Bytes)
  pub visits : List Visit
  pub events : List Event

-- The session over the `limits` of now.
abbrev pub view : Budgets → Session → Session
view b s = record s { shared = record s.shared { limits = b } }

abbrev pub boot : ℕ → Server
boot now = record { limits = fresh now; connections = []; visits = []; events = [] }

pub data Step (s : Server) : Server → Type 0 where
  connects :
      (l : Listener) (remote : Bytes)
      → Step s (record s {
        connections = (l, remote) ∷ s.connections;
        events = s.events ++ connection_opened l remote ∷ [];
      })
  disconnects :
      (l : Listener) (remote : Bytes) (before after : List (Listener × Bytes))
      (cause : Option Bytes)
      → s.connections ≡ before ++ (l, remote) ∷ after
      → Step s (record s {
        connections = before ++ after;
        events = s.events ++ connection_closed l remote cause ∷ [];
      })
  arrives :
      (l : Listener) (r : Request) (seen now : ℕ)
      → (open_slot l s.limits r seen now).1 ≡ none
      → Step s (record s {
        limits = (open_slot l s.limits r seen now).0;
        visits = upgrading l r ∷ s.visits;
        events = s.events ++ (open_slot l s.limits r seen now).2;
      })
  declines :
      (l : Listener) (r : Request) (seen now : ℕ) (answer : Answer)
      → (open_slot l s.limits r seen now).1 ≡ some answer
      → Step s (record s {
        limits = (open_slot l s.limits r seen now).0;
        visits = s.visits;
        events = s.events ++ (open_slot l s.limits r seen now).2;
      })
  upgrades :
      (l : Listener) (r : Request) (before after : List Visit)
      → s.visits ≡ before ++ upgrading l r ∷ after
      → Step s (record s {
        limits = (finish_upgrade l s.limits r none).0;
        visits = before ++ live l (address_of r.remote) (start s.limits) ∷ after;
        events = s.events ++ (finish_upgrade l s.limits r none).2;
      })
  refuses :
      (l : Listener) (r : Request) (before after : List Visit) (error : Bytes)
      → s.visits ≡ before ++ upgrading l r ∷ after
      → Step s (record s {
        limits = (finish_upgrade l s.limits r (some error)).0;
        visits = before ++ after;
        events = s.events ++ (finish_upgrade l s.limits r (some error)).2;
      })
  runs :
      (l : Listener) (address : Bytes) (t : Session) {t' : Session} (before after : List Visit)
      → s.visits ≡ before ++ live l address t ∷ after
      → Session.Step (limits_for l.probe) address (view s.limits t) t'
      → Step s
          (record s { limits = t'.shared.limits; visits = before ++ live l address t' ∷ after })

-- What a process that booted at `now` can come to.
pub data Reach (now : ℕ) : Server → Type 0 where
  booted : Reach now (boot now)
  next : {s t : Server} → Reach now s → Step s t → Reach now t
