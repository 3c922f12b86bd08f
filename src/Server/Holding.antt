-- ===== src/Server/Holding.antt =====
-- The slots that a visit holds, and what a step of its session does to them in the map.
use semantic_echo.Base.{
  Option, some, none, sum_of, ℕ, ◌+◌, ◌≤◌, ◌≡◌, refl, ◌∙◌, List, [], ◌∷◌, if◌then◌else◌, arith,
}
use semantic_echo.Base.Text.{Bytes, bytes_eq}
use semantic_echo.Counts.{get}
use semantic_echo.Budgets.{Budgets, spend, release, roll}
use semantic_echo.Budgets.Invariant.{IsValid, release-IsValid, charge-sessions, roll-sessions}
use semantic_echo.Budgets.Leases.{get-release}
use semantic_echo.Address.{address_of}
use semantic_echo.Session
use semantic_echo.Session.{
  Worker, lifetime_reached, Closer, watching, closing, closed, Limits, limits_for, Shared, Session,
  Move, fail, count, over, charge, halt, write, write_fails, send_fails, works, accepts, elapses,
  stops, expires, leaves, releases, start,
}
use semantic_echo.Server.{Visit, upgrading, live}

-- One slot of `address`, as the address `a` counts it.
abbrev pub one : Bytes → Bytes → ℕ
one address a = if bytes_eq address a then 1 else 0

-- A session holds its slot until its closing goroutine has released it.
abbrev pub slot : Bytes → Closer → Bytes → ℕ
slot address watching a = one address a
slot address (closing why) a = one address a
slot address (closed why) a = 0

-- The slots of `a` that one visit holds, and those that it holds on a probe port.
abbrev pub holds : Bytes → Visit → ℕ
holds a (upgrading l r) = one (address_of r.remote) a
holds a (live l address t) = slot address t.closer a

abbrev pub probes : Bytes → Visit → ℕ
probes a (upgrading l r) = if l.probe then one (address_of r.remote) a else 0
probes a (live l address t) = if l.probe then slot address t.closer a else 0

probes-le-holds : (a : Bytes) (v : Visit) → probes a v ≤ holds a v
probes-le-holds a (upgrading l r) = ground arith
probes-le-holds a (live l address t) = ground arith

pub sum-probes-le : (a : Bytes) (vs : List Visit) → sum_of (probes a) vs ≤ sum_of (holds a) vs
sum-probes-le a [] = omega arith
sum-probes-le a (v ∷ vs) = omega (arith, probes-le-holds a v, sum-probes-le a vs)

-- What a step of a session does to the map.
Move-sessions :
    {l : Limits} {m m' : Shared} {w w' : Worker}
    → Move l m w m' w'
    → m'.limits.sessions ≡ m.limits.sessions
unfolding spend
Move-sessions fail = refl
Move-sessions (count n last) = refl
Move-sessions (over h) = refl
Move-sessions {m} (charge {n} seen now h ok) =
    charge-sessions (roll m.limits seen now) n ∙ roll-sessions m.limits seen now
Move-sessions {m} (halt {n} seen now h no_more) =
    charge-sessions (roll m.limits seen now) n ∙ roll-sessions m.limits seen now
Move-sessions write = refl
Move-sessions (write_fails k h) = refl
Move-sessions send_fails = refl

Move-IsValid :
    {l : Limits} {m m' : Shared} {w w' : Worker}
    → Move l m w m' w'
    → IsValid m.limits
    → IsValid m'.limits
Move-IsValid mv v = record {
  within = rw (Move-sessions mv) v.within;
  distinct = rw (Move-sessions mv) v.distinct;
}

pub session-IsValid :
    {l : Limits} {address : Bytes} {s t : Session}
    → Session.Step l address s t
    → IsValid s.shared.limits
    → IsValid t.shared.limits
session-IsValid (works before after e mv) v = Move-IsValid mv v
session-IsValid accepts v = v
session-IsValid (elapses t) v = v
session-IsValid (stops why e f) v = record { within = v.within; distinct = v.distinct }
session-IsValid (expires e h) v = v
session-IsValid (leaves e) v = v
session-IsValid {address} (releases why e) v = release-IsValid address v

pub release-slot :
    {b : Budgets} (address a : Bytes)
    → IsValid b
    → one address a ≤ get b.sessions a
    → get (release b address).sessions a + one address a ≡ get b.sessions a
release-slot {b} address a v h = ground (arith, get-release address a v)

released-slot :
    {b : Budgets} (address a : Bytes) (why : Option Bytes) (c : Closer)
    → c ≡ closing why
    → IsValid b
    → slot address c a ≤ get b.sessions a
    → get (release b address).sessions a + slot address c a ≡ get b.sessions a + 0
released-slot address a why c e v h = rw e (omega (arith, release-slot address a v (rw e at h)))

kept-slot :
    (n : ℕ) (address a : Bytes) (why : Option Bytes) (c : Closer)
    → c ≡ watching
    → n + slot address c a ≡ n + slot address (closing why) a
kept-slot n address a why c e = rw e refl

-- The map loses exactly the slot that the session gives up.
pub session-slot :
    {l : Limits} {address : Bytes} {s t : Session} (a : Bytes)
    → Session.Step l address s t
    → IsValid s.shared.limits
    → slot address s.closer a ≤ get s.shared.limits.sessions a
    → get t.shared.limits.sessions a + slot address s.closer a
      ≡ get s.shared.limits.sessions a + slot address t.closer a
session-slot a (works before after e mv) v h = rw (Move-sessions mv) refl
session-slot a accepts v h = refl
session-slot a (elapses t) v h = refl
session-slot {address} {s} a (stops why e f) v h = kept-slot _ address a (some why) s.closer e
session-slot {address} {s} a (expires e late) v h =
    kept-slot _ address a (some lifetime_reached) s.closer e
session-slot {address} {s} a (leaves e) v h = kept-slot _ address a none s.closer e
session-slot {address} {s} a (releases why e) v h = released-slot address a why s.closer e v h

-- A session that steps takes no slot.
pub session-slot_le :
    {l : Limits} {address : Bytes} {s t : Session} (a : Bytes)
    → Session.Step l address s t
    → slot address t.closer a ≤ slot address s.closer a
session-slot_le a (works before after e mv) = omega arith
session-slot_le a accepts = omega arith
session-slot_le a (elapses t) = omega arith
session-slot_le a (stops why e f) = rw e (omega arith)
session-slot_le a (expires e late) = rw e (omega arith)
session-slot_le a (leaves e) = rw e (omega arith)
session-slot_le a (releases why e) = omega arith
