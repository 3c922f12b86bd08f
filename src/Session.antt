-- ===== src/Session.antt =====
-- `serveEcho` (main.go, legacy/main.go): the goroutines of one session, interleaved in any order.
-- A worker is the datagram loop or the `echoStream` of one stream. Each step is one access to what
-- the goroutines share: the atomic counter, `limits` under its mutex, the channel `stopped`. A worker
-- is not told which of the two loops it is, so it may do what either may.
-- `sent`, `received` and `first` are not in the code: the bytes given to the peer, the bytes taken
-- from it, and the reason that was offered first.
pub mod Budget
pub mod Closing
pub mod Spending
use semantic_echo.Base.{
  ℕ, ◌+◌, ◌*◌, ◌^◌, ◌≤◌, ◌<◌, ◌≡◌, refl, Bool, true, false, List, [], ◌∷◌, ◌++◌, Option, none, some,
  if◌then◌else◌,
}
use semantic_echo.Base.Text.{Bytes, codes}
use semantic_echo.Base.Word.{add64, lt64}
use semantic_echo.Budgets.{Budgets, spend, release}

-- 1 << 20, and 64 << 20 for the probe of legacy/main.go
abbrev pub session_echo_budget : ℕ
session_echo_budget = 2 ^ 20

abbrev pub probe_echo_budget : ℕ
probe_echo_budget = 64 * 2 ^ 20

abbrev pub second : ℕ
second = 1_000_000_000

abbrev pub session_lifetime : ℕ
session_lifetime = 120 * second

abbrev pub probe_lifetime : ℕ
probe_lifetime = 10 * 60 * second

abbrev pub budget_reached : Bytes
budget_reached = codes "echo budget reached"

abbrev pub ceiling_reached : Bytes
ceiling_reached = codes "daily egress ceiling reached"

abbrev pub lifetime_reached : Bytes
lifetime_reached = codes "session lifetime reached"

-- Where a worker stands. `last` says that the read which brought the bytes also failed.
pub data Worker : Type 0 where
  reading : Worker
  counted : (n total : ℕ) (last : Bool) → Worker
  charged : (n : ℕ) (last : Bool) → Worker
  ended : Worker

-- The goroutine that closes the session, with the reason that it gives; none if the peer left. While
-- it is `closing`, the session is closed and the slot is not yet given back.
pub data Closer : Type 0 where
  watching : Closer
  closing : (why : Option Bytes) → Closer
  closed : (why : Option Bytes) → Closer

-- `serveWT` of legacy/main.go chooses these by the flag for the probe.
pub record Limits : Type 0 where
  pub budget : ℕ
  pub lifetime : ℕ

abbrev pub limits_for : Bool → Limits
limits_for true = record { budget = probe_echo_budget; lifetime = probe_lifetime }
limits_for false = record { budget = session_echo_budget; lifetime = session_lifetime }

pub record Shared : Type 0 where
  pub limits : Budgets
  pub echoed : ℕ
  pub stopped : Option Bytes
  pub first : Option Bytes
  pub sent : ℕ
  pub received : ℕ

pub record Session : Type 0 where
  pub shared : Shared
  pub workers : List Worker
  pub closer : Closer
  pub elapsed : ℕ

-- The record of the first reason: a later one changes nothing.
abbrev pub earliest : Option Bytes → Bytes → Option Bytes
earliest first why = elim first [ none ↦ some why | some w ↦ some w ]

-- `stop`: a send that does not wait, into a channel that holds one reason.
abbrev pub offer : Option Bytes → Bytes → Option Bytes
offer none why = some why
offer (some w) why = some w

abbrev pub stop : Shared → Bytes → Shared
stop m why = record m { stopped = offer m.stopped why; first = earliest m.first why }

abbrev pub after_write : Bool → Worker
after_write last = if last then ended else reading

-- One step of one worker. `n` bytes come from a read or a datagram.
pub data Move (l : Limits) (m : Shared) : Worker → Shared → Worker → Type 0 where
  fail : Move l m reading m ended
  count :
      (n : ℕ) (last : Bool)
      → Move l m reading
          (record m { echoed = add64 m.echoed n; received = m.received + n })
          (counted n (add64 m.echoed n) last)
  over :
      {n total : ℕ} {last : Bool}
      → lt64 l.budget total ≡ true
      → Move l m (counted n total last) (stop m budget_reached) ended
  charge :
      {n total : ℕ} {last : Bool} (seen now : ℕ)
      → lt64 l.budget total ≡ false
      → (spend m.limits n seen now).1 ≡ true
      → Move l m
          (counted n total last)
          (record m { limits = (spend m.limits n seen now).0 })
          (charged n last)
  halt :
      {n total : ℕ} {last : Bool} (seen now : ℕ)
      → lt64 l.budget total ≡ false
      → (spend m.limits n seen now).1 ≡ false
      → Move l m
          (counted n total last)
          (stop (record m { limits = (spend m.limits n seen now).0 }) ceiling_reached)
          ended
  write :
      {n : ℕ} {last : Bool}
      → Move l m (charged n last) (record m { sent = m.sent + n }) (after_write last)
  write_fails :
      {n : ℕ} {last : Bool} (k : ℕ)
      → k ≤ n
      → Move l m (charged n last) (record m { sent = m.sent + k }) ended
  -- The datagram loop goes on where `SendDatagram` fails.
  send_fails : {n : ℕ} {last : Bool} → Move l m (charged n last) m reading

-- One step of the session, whose slot is held under `address`.
pub data Step (l : Limits) (address : Bytes) (s : Session) : Session → Type 0 where
  works :
      {w w' : Worker} {m : Shared} (before after : List Worker)
      → s.workers ≡ before ++ w ∷ after
      → Move l s.shared w m w'
      → Step l address s (record s { shared = m; workers = before ++ w' ∷ after })
  accepts : Step l address s (record s { workers = reading ∷ s.workers })
  elapses : (t : ℕ) → Step l address s (record s { elapsed = s.elapsed + t })
  stops :
      (why : Bytes)
      → s.closer ≡ watching
      → s.shared.stopped ≡ some why
      → Step l address s
          (record s { shared = record s.shared { stopped = none }; closer = closing (some why) })
  expires :
      s.closer ≡ watching
      → l.lifetime ≤ s.elapsed
      → Step l address s (record s { closer = closing (some lifetime_reached) })
  leaves : s.closer ≡ watching → Step l address s (record s { closer = closing none })
  releases :
      (why : Option Bytes)
      → s.closer ≡ closing why
      → Step l address s (record s {
        shared = record s.shared { limits = release s.shared.limits address };
        closer = closed why;
      })

-- The session as `serveEcho` starts it: the datagram loop, no stream yet.
abbrev pub start : Budgets → Session
start b = record {
  shared = record { limits = b; echoed = 0; stopped = none; first = none; sent = 0; received = 0 };
  workers = reading ∷ [];
  closer = watching;
  elapsed = 0;
}

-- What the session can come to while other sessions change `limits`.
pub data Reach (l : Limits) (address : Bytes) (b : Budgets) : Session → Type 0 where
  begin : Reach l address b (start b)
  next : {s t : Session} → Reach l address b s → Step l address s t → Reach l address b t
  others :
      {s : Session} (b' : Budgets)
      → Reach l address b s
      → Reach l address b (record s { shared = record s.shared { limits = b' } })
