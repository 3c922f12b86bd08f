-- ===== src/Server/Slots.antt =====
-- The slots that the handlers and sessions of a process hold, against the map of `limits`.
use semantic_echo.Base.{
  sum_of, sum_of-append, ℕ, ◌+◌, ◌≤◌, ◌≡◌, refl, ap, ◌∙◌, Bool, List, ◌∷◌, ◌++◌, none, some,
  if◌then◌else◌, arith,
}
use semantic_echo.Base.Text.{Bytes, bytes_eq_iff}
use semantic_echo.Counts.{get}
use semantic_echo.Budgets.{Budgets, release}
use semantic_echo.Budgets.Invariant.{
  IsValid, get_small, fresh-IsValid, release-IsValid, roll-sessions,
}
use semantic_echo.Address.{address_of}
use semantic_echo.Endpoint.{
  Event, Answer, Request, Listener, session_cap, open_slot, finish_upgrade,
}
use semantic_echo.Endpoint.Slots.{
  acquire_probe-get, acquire_probe-kept, acquire_probe_room, acquire_probe-IsValid, open_slot_cases,
}
use semantic_echo.Session
use semantic_echo.Session.{
  Worker, Closer, watching, closed, Limits, limits_for, Shared, Session, Move, fail, count, over,
  charge, halt, write, write_fails, works, accepts, elapses, stops, expires, leaves, start,
}
use semantic_echo.Server.{
  Visit, upgrading, live, Server, view, boot, Step, connects, disconnects, arrives, declines,
  upgrades, refuses, runs, Reach, booted, next,
}
use semantic_echo.Server.Holding.{
  holds, probes, sum-probes-le, session-IsValid, release-slot, session-slot, session-slot_le,
}

-- The map counts the slots that are held, and an address holds one at most on a probe port.
pub record Inv (s : Server) : Type 0 where
  pub valid : IsValid s.limits
  pub held : (a : Bytes) → get s.limits.sessions a ≡ sum_of (holds a) s.visits
  pub probed : (a : Bytes) → sum_of (probes a) s.visits ≤ 1

boot-Inv : (now : ℕ) → Inv (boot now)
unfolding get
boot-Inv now = record { valid = fresh-IsValid now; held = λ a. refl; probed = λ a. omega arith }

session_cap_probe : (probe : Bool) → session_cap probe ≡ (if probe then 1 else 4)
unfolding session_cap
session_cap_probe probe = ground arith

arrives-Inv :
    {s : Server} (l : Listener) (r : Request) (seen now : ℕ) (events : List Event)
    → (open_slot l s.limits r seen now).1 ≡ none
    → Inv s
    → Inv (record s {
      limits = (open_slot l s.limits r seen now).0;
      visits = upgrading l r ∷ s.visits;
      events = events;
    })
arrives-Inv {s} l r seen now events e v =
    let address = address_of r.remote in
    let (same, granted) = open_slot_cases l s.limits r seen now in
    let slot_taken = granted.1 e in
    record {
      valid = rw same (acquire_probe-IsValid address l.probe seen now v.valid);
      held = λ a. rw same (
          ground
            (arith, acquire_probe-get address a l.probe seen now v.valid slot_taken, v.held a));
      probed = λ a. ground (
        arith,
        acquire_probe_room s.limits address l.probe seen now v.valid slot_taken,
        bytes_eq_iff address a,
        v.held a,
        v.probed a,
        sum-probes-le a s.visits,
        session_cap_probe l.probe,
      );
    }

declines-Inv :
    {s : Server} (l : Listener) (r : Request) (seen now : ℕ) (answer : Answer) (events : List Event)
    → (open_slot l s.limits r seen now).1 ≡ some answer
    → Inv s
    → Inv (record s {
      limits = (open_slot l s.limits r seen now).0;
      visits = s.visits;
      events = events;
    })
declines-Inv {s} l r seen now answer events e v =
    let address = address_of r.remote in
    let (same, granted) = open_slot_cases l s.limits r seen now in
    record {
      valid = rw same (acquire_probe-IsValid address l.probe seen now v.valid);
      held = λ a. rw same (
          ground (
            arith,
            acquire_probe-kept s.limits address l.probe seen now,
            roll-sessions s.limits seen now,
            v.held a,
            granted,
          ));
      probed = v.probed;
    }

-- One visit changes, and the map with it.
module _ (s : Server) (before after : List Visit) (x : Visit) (inv : Inv s)
    (e : s.visits ≡ before ++ x ∷ after) where
  held_split :
      (a : Bytes)
      → get s.limits.sessions a ≡ sum_of (holds a) before + (holds a x + sum_of (holds a) after)
  held_split a = inv.held a ∙ ap (sum_of (holds a)) e ∙ sum_of-append (holds a) before (x ∷ after)

  probed_split : (a : Bytes) → sum_of (probes a) before + (probes a x + sum_of (probes a) after) ≤ 1
  probed_split a =
      omega
        (arith, inv.probed a, ap (sum_of (probes a)) e, sum_of-append (probes a) before (x ∷ after))

  holds-le-get : (a : Bytes) → holds a x ≤ get s.limits.sessions a
  holds-le-get a = omega (arith, held_split a)

  changes-Inv :
      (y : Visit) (b : Budgets) (events : List Event)
      → IsValid b
      → ((a : Bytes) → get b.sessions a + holds a x ≡ get s.limits.sessions a + holds a y)
      → ((a : Bytes) → probes a y ≤ probes a x)
      → Inv (record s { limits = b; visits = before ++ y ∷ after; events = events })
  changes-Inv y b events valid moved fewer = record {
    valid = valid;
    held = λ a. omega (arith, moved a, held_split a, sum_of-append (holds a) before (y ∷ after));
    probed =
        λ a. omega (arith, fewer a, probed_split a, sum_of-append (probes a) before (y ∷ after));
  }

  removes-Inv :
      (b : Budgets) (events : List Event)
      → IsValid b
      → ((a : Bytes) → get b.sessions a + holds a x ≡ get s.limits.sessions a)
      → Inv (record s { limits = b; visits = before ++ after; events = events })
  removes-Inv b events valid moved = record {
    valid = valid;
    held = λ a. omega (arith, moved a, held_split a, sum_of-append (holds a) before after);
    probed = λ a. omega (arith, probed_split a, sum_of-append (probes a) before after);
  }

upgrades-Inv :
    {s : Server} (l : Listener) (r : Request) (before after : List Visit) (events : List Event)
    → s.visits ≡ before ++ upgrading l r ∷ after
    → Inv s
    → Inv (record s {
      limits = (finish_upgrade l s.limits r none).0;
      visits = before ++ live l (address_of r.remote) (start s.limits) ∷ after;
      events = events;
    })
unfolding finish_upgrade
upgrades-Inv {s} l r before after events e v =
    changes-Inv s before after (upgrading l r) v e _ s.limits events v.valid (λ a. refl)
      (λ a. omega arith)

refuses-Inv :
    {s : Server} (l : Listener) (r : Request) (before after : List Visit) (error : Bytes)
    (events : List Event)
    → s.visits ≡ before ++ upgrading l r ∷ after
    → Inv s
    → Inv (record s {
      limits = (finish_upgrade l s.limits r (some error)).0;
      visits = before ++ after;
      events = events;
    })
unfolding finish_upgrade
refuses-Inv {s} l r before after error events e v =
    let address = address_of r.remote in
    removes-Inv s before after (upgrading l r) v e (release s.limits address) events
      (release-IsValid address v.valid)
      (λ a. release-slot address a v.valid (holds-le-get s before after (upgrading l r) v e a))

runs-Inv :
    {s : Server} (l : Listener) (address : Bytes) (t t' : Session) (before after : List Visit)
    → s.visits ≡ before ++ live l address t ∷ after
    → Session.Step (limits_for l.probe) address (view s.limits t) t'
    → Inv s
    → Inv (record s { limits = t'.shared.limits; visits = before ++ live l address t' ∷ after })
runs-Inv {s} l address t t' before after e st v =
    changes-Inv s before after (live l address t) v e (live l address t') t'.shared.limits s.events
      (session-IsValid st v.valid)
      (λ a. session-slot a st v.valid (holds-le-get s before after (live l address t) v e a))
      (λ a. ground (arith, session-slot_le a st))

Step-Inv : {s t : Server} → Step s t → Inv s → Inv t
Step-Inv (connects l remote) v = record { valid = v.valid; held = v.held; probed = v.probed }
Step-Inv (disconnects l remote before after cause e) v = record {
  valid = v.valid;
  held = v.held;
  probed = v.probed;
}
Step-Inv (arrives l r seen now e) v = arrives-Inv l r seen now _ e v
Step-Inv (declines l r seen now answer e) v = declines-Inv l r seen now answer _ e v
Step-Inv (upgrades l r before after e) v = upgrades-Inv l r before after _ e v
Step-Inv (refuses l r before after error e) v = refuses-Inv l r before after error _ e v
Step-Inv (runs l address t {t'} before after e st) v = runs-Inv l address t t' before after e st v

pub Reach-Inv : {now : ℕ} {s : Server} → Reach now s → Inv s
Reach-Inv {now} booted = boot-Inv now
Reach-Inv (next r st) = Step-Inv st (Reach-Inv r)

-- In every state that a process can reach, whatever connections, requests and sessions it serves and
-- however their steps interleave: the map holds for each address the number of its requests whose
-- upgrade runs and of its sessions whose slot is not given back, which is until the goroutine that
-- closes the session has released it. There are at most 4 of these for one address, and at most one of
-- them is on a probe port.
pub held-le-cap :
    (now : ℕ) (s : Server) (a : Bytes)
    → Reach now s
    → (get s.limits.sessions a ≡ sum_of (holds a) s.visits)
      × (sum_of (holds a) s.visits ≤ 4)
      × (sum_of (probes a) s.visits ≤ 1)
held-le-cap now s a r =
    let v = Reach-Inv r in (v.held a, omega (arith, v.held a, get_small v.valid a), v.probed a)
