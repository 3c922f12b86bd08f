-- ===== src/Endpoint/Slots.antt =====
-- What a request does to the sessions, and the records that it leaves, on every branch.
use semantic_echo.Base.{
  ◌<◌, ℕ, ◌+◌, ◌≤◌, ◌≡◌, Bool, true, false, List, [], ◌∷◌, Option, none, some, if◌then◌else◌, arith,
  map,
}
use semantic_echo.Base.Text.{Bytes, bytes_eq}
use semantic_echo.Counts.{get}
use semantic_echo.Base.Word.{lt64_exact}
use semantic_echo.Budgets.{Budgets, roll, admit, per_address_sessions}
use semantic_echo.Budgets.Invariant.{IsValid, roll-IsValid, roll-sessions}
use semantic_echo.Budgets.Leases.{get-admit}
use semantic_echo.Address.{address_of}
use semantic_echo.Endpoint.{
  Kind, connect, session, refused, declined, Event, Request, Listener, Answer, status, upgraded,
  session_cap, acquire_probe,
}
use semantic_echo.Budgets.Invariant.{get_small}
use semantic_echo.Budgets.Invariant.{admit-IsValid}
use semantic_echo.Base.{◌↔◌}
use semantic_echo.Endpoint.{open_slot}

pub session_cap-le : (probe : Bool) → session_cap probe ≤ per_address_sessions
unfolding session_cap
session_cap-le probe = ground arith

abbrev pub kinds : List Event → List Kind
kinds = map (λ e. e.kind)

pub acquire_probe-kept :
    (b : Budgets) (address : Bytes) (probe : Bool) (seen now : ℕ)
    → (acquire_probe b address probe seen now).1 ≡ false
    → (acquire_probe b address probe seen now).0 ≡ roll b seen now
unfolding acquire_probe admit
acquire_probe-kept b address probe seen now h = ground arith

pub acquire_probe-get :
    {b : Budgets} (address a : Bytes) (probe : Bool) (seen now : ℕ)
    → IsValid b
    → (acquire_probe b address probe seen now).1 ≡ true
    → get (acquire_probe b address probe seen now).0.sessions a
      ≡ get b.sessions a + (if bytes_eq address a then 1 else 0)
unfolding acquire_probe
acquire_probe-get {b} address a probe seen now v granted = ground (
  arith,
  roll-sessions b seen now,
  get-admit (session_cap probe) address a (roll-IsValid seen now v),
)

pub acquire_probe_room :
    (b : Budgets) (address : Bytes) (probe : Bool) (seen now : ℕ)
    → IsValid b
    → (acquire_probe b address probe seen now).1 ≡ true
    → get b.sessions address < session_cap probe
unfolding acquire_probe admit
acquire_probe_room b address probe seen now v granted = ground (
  arith,
  roll-sessions b seen now,
  get_small v address,
  session_cap-le probe,
  lt64_exact (get b.sessions address) (session_cap probe),
)

pub acquire_probe-IsValid :
    {b : Budgets} (address : Bytes) (probe : Bool) (seen now : ℕ)
    → IsValid b
    → IsValid (acquire_probe b address probe seen now).0
unfolding acquire_probe
acquire_probe-IsValid address probe seen now v =
    admit-IsValid (session_cap probe) address (session_cap-le probe) (roll-IsValid seen now v)

-- The first half of the handler: a slot, or the answer that there is none.
pub open_slot_cases :
    (l : Listener) (b : Budgets) (r : Request) (seen now : ℕ)
    → let taken = acquire_probe b (address_of r.remote) l.probe seen now in
      ((open_slot l b r seen now).0 ≡ taken.0)
      × ((taken.1 ≡ true) ↔ ((open_slot l b r seen now).1 ≡ none))
unfolding open_slot
open_slot_cases l b r seen now = ground arith

-- The three ways in which a request ends, by the outcome of its upgrade.
module _ (most : ℕ) (upgrade : Option Bytes) (b : Budgets) (address : Bytes) (b' : Budgets)
    (answer : Answer) (events : List Event) where
  abbrev pub Declined : Type 0
  Declined =
      (answer ≡ status 503) × (kinds events ≡ connect ∷ declined ∷ []) × (b'.sessions ≡ b.sessions)

  abbrev pub Failed : Type 0
  Failed =
      ((error : Bytes) × (upgrade ≡ some error))
      × ((answer ≡ status 500)
          × (kinds events ≡ connect ∷ refused ∷ [])
          × (b'.sessions ≡ b.sessions)
          × (get b.sessions address < most))

  abbrev pub Served : Type 0
  Served =
      (upgrade ≡ none)
      × (answer ≡ upgraded)
      × (kinds events ≡ connect ∷ session ∷ [])
      × (get b.sessions address < most)
      × ((a : Bytes) → get b'.sessions a ≡ get b.sessions a + (if bytes_eq address a then 1 else 0))
