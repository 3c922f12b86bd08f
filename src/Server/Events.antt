-- ===== src/Server/Events.antt =====
-- What the log of a process says of an address, against its connections, requests and sessions.
use semantic_echo.Base.{
  ℕ, ◌+◌, ◌≡◌, refl, Bool, true, false, List, ◌∷◌, ◌++◌, none, some, if◌then◌else◌, arith, sum_of,
  sum_of-append, sum_of_removed, sum_of_replaced,
}
use semantic_echo.Base.Text.{Bytes}
use semantic_echo.Budgets.{Budgets}
use semantic_echo.Address.{address_of}
use semantic_echo.Endpoint.{
  Kind, quic, connect, session, refused, declined, closed, Event, Answer, Request, Listener,
  open_slot, finish_upgrade,
}
use semantic_echo.Session.{start}
use semantic_echo.Server.{
  Visit, upgrading, live, Server, Step, connects, disconnects, arrives, declines, upgrades, refuses,
  runs, Reach, booted, next,
}
use semantic_echo.Server.Holding.{one}

abbrev pub same_kind : Kind → Kind → Bool
same_kind quic quic = true
same_kind connect connect = true
same_kind session session = true
same_kind refused refused = true
same_kind declined declined = true
same_kind closed closed = true
same_kind _ _ = false

-- The observations of an address of one kind.
abbrev pub observed_as : Kind → Bytes → List Event → ℕ
observed_as k a = sum_of (λ (e : Event). if same_kind k e.kind then one e.address a else 0)

abbrev pub open_from : Bytes → List (Listener × Bytes) → ℕ
open_from a = sum_of (λ c. one (address_of c.1) a)

abbrev pub waits : Bytes → Visit → ℕ
waits a (upgrading l r) = one (address_of r.remote) a
waits a (live l address t) = 0

abbrev pub started : Bytes → Visit → ℕ
started a (upgrading l r) = 0
started a (live l address t) = one address a

record Told (a : Bytes) (s : Server) : Type 0 where
  connections_told :
      observed_as quic a s.events ≡ observed_as closed a s.events + open_from a s.connections
  requests_told :
      observed_as connect a s.events
      ≡ observed_as declined a s.events
        + observed_as refused a s.events
        + observed_as session a s.events
        + sum_of (waits a) s.visits
  sessions_told : observed_as session a s.events ≡ sum_of (started a) s.visits

open_slot_granted :
    (l : Listener) (b : Budgets) (r : Request) (seen now : ℕ) (k : Kind) (a : Bytes)
    → (open_slot l b r seen now).1 ≡ none
    → observed_as k a (open_slot l b r seen now).2
      ≡ (if same_kind k connect then one (address_of r.remote) a else 0)
unfolding open_slot
open_slot_granted l b r seen now k a e = ground arith

open_slot_refused :
    (l : Listener) (b : Budgets) (r : Request) (seen now : ℕ) (answer : Answer) (k : Kind)
    (a : Bytes)
    → (open_slot l b r seen now).1 ≡ some answer
    → observed_as k a (open_slot l b r seen now).2
      ≡ (if same_kind k connect then one (address_of r.remote) a else 0)
        + (if same_kind k declined then one (address_of r.remote) a else 0)
unfolding open_slot
open_slot_refused l b r seen now answer k a e = ground arith

-- The log grows, and what it is held against changes as much.
module _ (a : Bytes) (s : Server) (told : Told a s) (b : Budgets) (open_ : List (Listener × Bytes))
    (visits : List Visit) (more : List Event) where
  more-Told :
      observed_as quic a more + open_from a s.connections
        ≡ observed_as closed a more + open_from a open_
      → observed_as connect a more + sum_of (waits a) s.visits
        ≡ observed_as declined a more
          + observed_as refused a more
          + observed_as session a more
          + sum_of (waits a) visits
      → observed_as session a more + sum_of (started a) s.visits ≡ sum_of (started a) visits
      → Told a
          (record { limits = b; connections = open_; visits = visits; events = s.events ++ more })
  more-Told c r v =
      let grown : (k : Kind)
          → observed_as k a (s.events ++ more) ≡ observed_as k a s.events + observed_as k a more =
        λ k.
          sum_of-append (λ (e : Event). if same_kind k e.kind then one e.address a else 0) s.events
            more in
      record {
        connections_told = omega (arith, told.connections_told, c, grown quic, grown closed);
        requests_told = omega (
          arith,
          told.requests_told,
          r,
          grown connect,
          grown declined,
          grown refused,
          grown session,
        );
        sessions_told = omega (arith, told.sessions_told, v, grown session);
      }

Step-Told : (a : Bytes) {s t : Server} → Step s t → Told a s → Told a t
unfolding finish_upgrade
Step-Told a {s} (connects l remote) h =
    more-Told a s h s.limits _ s.visits _ (omega arith) (omega arith) (omega arith)
Step-Told a {s} (disconnects l remote before after cause e) h =
    more-Told a s h s.limits (before ++ after) s.visits _
      (omega (
        arith,
        sum_of_removed (λ (c : Listener × Bytes). one (address_of c.1) a) before (l, remote) after
            e,
      ))
      (omega arith) (omega arith)
Step-Told a {s} (arrives l r seen now e) h =
    let told = λ (k : Kind). open_slot_granted l s.limits r seen now k a e in
    more-Told a s h _ s.connections _ _ (omega (arith, told quic, told closed))
      (omega (arith, told connect, told declined, told refused, told session))
      (omega (arith, told session))
Step-Told a {s} (declines l r seen now answer e) h =
    let told = λ (k : Kind). open_slot_refused l s.limits r seen now answer k a e in
    more-Told a s h _ s.connections s.visits _ (omega (arith, told quic, told closed))
      (omega (arith, told connect, told declined, told refused, told session))
      (omega (arith, told session))
Step-Told a {s} (upgrades l r before after e) h =
    let now_live = live l (address_of r.remote) (start s.limits) in
    more-Told a s h s.limits s.connections (before ++ now_live ∷ after) _ (omega arith)
      (omega (arith, sum_of_replaced (waits a) before (upgrading l r) now_live after e))
      (omega (arith, sum_of_replaced (started a) before (upgrading l r) now_live after e))
Step-Told a {s} (refuses l r before after error e) h =
    more-Told a s h _ s.connections (before ++ after) _ (omega arith)
      (omega (arith, sum_of_removed (waits a) before (upgrading l r) after e))
      (omega (arith, sum_of_removed (started a) before (upgrading l r) after e))
Step-Told a {s} (runs l address t {t'} before after e st) h = record {
  connections_told = h.connections_told;
  requests_told = omega (
    arith,
    h.requests_told,
    sum_of_replaced (waits a) before (live l address t) (live l address t') after e,
  );
  sessions_told = omega (
    arith,
    h.sessions_told,
    sum_of_replaced (started a) before (live l address t) (live l address t') after e,
  );
}

Reach-Told : (a : Bytes) {now : ℕ} {s : Server} → Reach now s → Told a s
Reach-Told a booted = record { connections_told = refl; requests_told = refl; sessions_told = refl }
Reach-Told a (next r st) = Step-Told a st (Reach-Told a r)

-- The log accounts for everything that an address did, in every state that a process can reach. Its
-- connections: each that was written down as made was written down as closed, or is open. Its
-- requests: each that was written down as arrived was written down as declined, as refused or as a
-- session, or its upgrade runs. Its sessions: as many were written down as were started.
pub log_accounts :
    (now : ℕ) (s : Server) (a : Bytes)
    → Reach now s
    → (observed_as quic a s.events ≡ observed_as closed a s.events + open_from a s.connections)
      × (observed_as connect a s.events
          ≡ observed_as declined a s.events
            + observed_as refused a s.events
            + observed_as session a s.events
            + sum_of (waits a) s.visits)
      × (observed_as session a s.events ≡ sum_of (started a) s.visits)
log_accounts now s a r =
    let told = Reach-Told a r in (told.connections_told, told.requests_told, told.sessions_told)
