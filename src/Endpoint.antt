-- ===== src/Endpoint.antt =====
-- The handler of "/echo" (`startWT` of main.go, `serveWT` of legacy/main.go) and the records that
-- it leaves. `Upgrade` belongs to webtransport-go: its outcome is an argument, the text of its
-- error if it fails.
pub mod Slots
use semantic_echo.Base.{
  ℕ, ◌+◌, ◌≡◌, refl, Bool, true, false, not, List, [], ◌∷◌, ◌++◌, Option, none, some, if◌then◌else◌,
}
use semantic_echo.Base.Text.{Bytes, codes}
use semantic_echo.Budgets.{Budgets, admit, roll, release, per_address_sessions}
use semantic_echo.Address.{address_of}

-- The kinds of observation, in the order in which a healthy session produces them.
pub data Kind : Type 0 where
  quic connect session refused declined closed : Kind

-- The arguments of `record`.
pub record Event : Type 0 where
  pub address : Bytes
  pub port : ℕ
  pub kind : Kind
  pub detail : Bytes

abbrev pub probe_sessions : ℕ
probe_sessions = 1

-- The cap of legacy/main.go, which takes a flag for the flow-control probe.
unfoldable pub session_cap : Bool → ℕ
session_cap probe = if probe then probe_sessions else per_address_sessions

-- `acquire` of legacy/main.go. Without the flag it is that of main.go.
unfoldable pub acquire_probe : Budgets → Bytes → Bool → ℕ → ℕ → Budgets × Bool × Bytes
unfolding admit roll session_cap
acquire_probe b address probe seen now = admit (session_cap probe) (roll b seen now) address

-- What the client gets: a status, or a session whose echo loops start.
pub data Answer : Type 0 where
  status : ℕ → Answer
  upgraded : Answer

abbrev pub service_unavailable : ℕ
service_unavailable = 503

abbrev pub internal_server_error : ℕ
internal_server_error = 500

pub record Request : Type 0 where
  pub remote : Bytes
  pub origin : Bytes

-- The parameters of one listener.
pub record Listener : Type 0 where
  pub port : ℕ
  pub probe : Bool

-- `watch.record(address, port, kind, detail)` in a handler of the listener.
abbrev pub observe : Listener → Request → Kind → Bytes → Event
observe l r kind detail = record {
  address = address_of r.remote;
  port = l.port;
  kind = kind;
  detail = detail;
}

-- What `ConnContext` writes down of a connection when its handshake is done, and when it goes away.
abbrev pub connection_opened : Listener → Bytes → Event
connection_opened l remote = record {
  address = address_of remote;
  port = l.port;
  kind = quic;
  detail = [];
}

-- `closeReason`: the text of the cause of the connection's context, if it has one.
abbrev pub close_reason : Option Bytes → Bytes
close_reason none = []
close_reason (some cause) = cause

abbrev pub connection_closed : Listener → Bytes → Option Bytes → Event
connection_closed l remote cause = record {
  address = address_of remote;
  port = l.port;
  kind = closed;
  detail = close_reason cause;
}

-- The handler up to the upgrade: the connect record, and the slot or the refusal.
unfoldable pub open_slot :
    Listener → Budgets → Request → ℕ → ℕ → Budgets × Option Answer × List Event
open_slot l b r seen now =
    let arrived = observe l r connect (codes "origin=" ++ r.origin) in
    let (b', granted, why) = acquire_probe b (address_of r.remote) l.probe seen now in
    if granted
    then (b', none, arrived ∷ [])
    else (b', some (status service_unavailable), arrived ∷ observe l r declined why ∷ [])

-- The handler from the upgrade on.
unfoldable pub finish_upgrade :
    Listener → Budgets → Request → Option Bytes → Budgets × Answer × List Event
finish_upgrade l b r none = (b, upgraded, observe l r session [] ∷ [])
finish_upgrade l b r (some error) =
    (release b (address_of r.remote), status internal_server_error, observe l r refused error ∷ [])

-- The whole handler, for one request that no other interrupts.
unfoldable pub handle :
    Listener → Budgets → Request → ℕ → ℕ → Option Bytes → Budgets × Answer × List Event
unfolding open_slot finish_upgrade
handle l b r seen now upgrade =
    let (b', early, events) = open_slot l b r seen now in
    elim early [
      | some answer ↦ (b', answer, events)
      | none ↦
          let (b'', answer, more) = finish_upgrade l b' r upgrade in (b'', answer, events ++ more)
    ]
