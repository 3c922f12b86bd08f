-- ===== src/Server/Sessions.antt =====
-- Each session of a process, as `serveEcho` runs it alone.
use semantic_echo.Base.{
  All-split, All-mem, ℕ, ◌^◌, ◌≤◌, ◌<◌, ◌≡◌, List, [], ◌∷◌, ◌++◌, some, ◌⊎◌, All, All-append,
}
use mathlib.Core.List.{Memᴰ}
use semantic_echo.Base.Text.{Bytes}
use semantic_echo.Budgets.{Budgets}
use semantic_echo.Endpoint.{Listener}
use semantic_echo.Session
use semantic_echo.Session.{
  Session, closing, closed, limits_for, start, begin, others, lifetime_reached,
}
use semantic_echo.Session.Budget.{sent-le-budget}
use semantic_echo.Session.Closing.{IsLimit, closed_reason}
use semantic_echo.Server.{
  Visit, upgrading, live, Server, view, Step, connects, disconnects, arrives, declines, upgrades,
  refuses, runs, Reach, booted, next,
}

-- The session is one that `serveEcho` can come to, over the `limits` of now.
abbrev IsSession : Budgets → Visit → Type 0
IsSession b (upgrading l r) = Unit {0}
IsSession b (live l address t) =
    (first : Budgets) × Session.Reach (limits_for l.probe) address first (view b t)

IsSession-limits : (b b' : Budgets) (v : Visit) → IsSession b v → IsSession b' v
IsSession-limits b b' (upgrading l r) h = tt
IsSession-limits b b' (live l address t) (first, r) = (first, others b' r)

All-IsSession : (b b' : Budgets) (vs : List Visit) → All (IsSession b) vs → All (IsSession b') vs
All-IsSession b b' [] h = tt
All-IsSession b b' (v ∷ vs) (h, hs) = (IsSession-limits b b' v h, All-IsSession b b' vs hs)

-- One visit changes, and `limits` with it.
changes-IsSession :
    (b b' : Budgets) (before after : List Visit) (v w : Visit)
    → All (IsSession b) (before ++ v ∷ after)
    → IsSession b' w
    → All (IsSession b') (before ++ w ∷ after)
changes-IsSession b b' before after v w h k =
    let (front, here, back) = All-split (IsSession b) before v after h in
    All-append (IsSession b') before (w ∷ after) (All-IsSession b b' before front)
      (k, All-IsSession b b' after back)

Step-IsSession :
    {s t : Server}
    → Step s t
    → All (IsSession s.limits) s.visits
    → All (IsSession t.limits) t.visits
Step-IsSession (connects l remote) h = h
Step-IsSession (disconnects l remote before after cause e) h = h
Step-IsSession {s} (arrives l r seen now e) h = (tt, All-IsSession s.limits _ s.visits h)
Step-IsSession {s} (declines l r seen now answer e) h = All-IsSession s.limits _ s.visits h
Step-IsSession {s} (upgrades l r before after e) h =
    changes-IsSession s.limits _ before after (upgrading l r) _ (rw e at h)
      (s.limits, others _ begin)
Step-IsSession {s} (refuses l r before after error e) h =
    let (front, here, back) =
      All-split (IsSession s.limits) before (upgrading l r) after (rw e at h) in
    All-IsSession s.limits _ (before ++ after) (All-append _ before after front back)
Step-IsSession {s} (runs l address t {t'} before after e st) h =
    let (front, (first, r), back) =
      All-split (IsSession s.limits) before (live l address t) after (rw e at h) in
    changes-IsSession s.limits t'.shared.limits before after (live l address t) (live l address t')
      (rw e at h) (first, others t'.shared.limits (Session.next r st))

Reach-IsSession : {now : ℕ} {s : Server} → Reach now s → All (IsSession s.limits) s.visits
Reach-IsSession booted = tt
Reach-IsSession (next r st) = Step-IsSession st (Reach-IsSession r)

-- Each session of a process keeps its budget, whatever the others do: it has given its peer at most
-- its budget and at most what it received, if that is below 2 ^ 63 bytes.
pub session_promises :
    (now : ℕ) (s : Server) (l : Listener) (address : Bytes) (t : Session)
    → Reach now s
    → Memᴰ (live l address t) s.visits
    → t.shared.received < 2 ^ 63
    → (t.shared.sent ≤ (limits_for l.probe).budget) × (t.shared.sent ≤ t.shared.received)
session_promises now s l address t r m fits =
    let (first, own) =
      All-mem (IsSession s.limits) s.visits (live l address t) m (Reach-IsSession r) in
    sent-le-budget l.probe address first (view s.limits t) own fits

-- A session of a process that the server closed was closed for a limit that one of its workers
-- offered first, or for a lifetime that had passed, whatever the other sessions did, and whether its
-- slot is given back yet or not.
pub session_closes :
    (now : ℕ) (s : Server) (l : Listener) (address : Bytes) (t : Session) (why : Bytes)
    → Reach now s
    → Memᴰ (live l address t) s.visits
    → (t.closer ≡ closing (some why)) ⊎ (t.closer ≡ closed (some why))
    → ((t.shared.first ≡ some why) × IsLimit why)
      ⊎ ((why ≡ lifetime_reached) × ((limits_for l.probe).lifetime ≤ t.elapsed))
session_closes now s l address t why r m e =
    let (first, own) =
      All-mem (IsSession s.limits) s.visits (live l address t) m (Reach-IsSession r) in
    closed_reason l.probe address first (view s.limits t) why own e
