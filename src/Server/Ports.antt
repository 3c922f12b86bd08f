-- ===== src/Server/Ports.antt =====
-- A process that serves the listeners of its boot, and no others.
use semantic_echo.Base.{ℕ, ◌≡◌, refl, List, ◌∷◌, ◌++◌, All, All-append, All-split, All-mem}
use mathlib.Core.List.{Memᴰ}
use semantic_echo.Endpoint.{Listener}
use semantic_echo.Server.{
  Visit, upgrading, live, Server, Step, connects, disconnects, arrives, declines, upgrades, refuses,
  runs, Reach, booted, next,
}

-- What reaches the process reaches one of these listeners.
abbrev pub IsOn : List Listener → {s t : Server} → Step s t → Type 0
IsOn ls (connects l remote) = Memᴰ l ls
IsOn ls (arrives l r seen now e) = Memᴰ l ls
IsOn ls (declines l r seen now answer e) = Memᴰ l ls
IsOn ls _ = Unit

abbrev pub Serves : List Listener → {now : ℕ} {s : Server} → Reach now s → Type 0
Serves ls booted = Unit
Serves ls (next r st) = Serves ls r × IsOn ls st

abbrev pub listener_of : Visit → Listener
listener_of (upgrading l r) = l
listener_of (live l address t) = l

abbrev Among : List Listener → Visit → Type 0
Among ls v = Memᴰ (listener_of v) ls

-- A visit changes and stays on its listener.
Among-replaced :
    (ls : List Listener) (before after : List Visit) (v w : Visit)
    → listener_of v ≡ listener_of w
    → All (Among ls) (before ++ v ∷ after)
    → All (Among ls) (before ++ w ∷ after)
Among-replaced ls before after v w same h =
    let (front, here, back) = All-split (Among ls) before v after h in
    All-append (Among ls) before (w ∷ after) front (rw same at here, back)

Step-Among :
    (ls : List Listener) {s t : Server} (st : Step s t)
    → IsOn ls st
    → All (Among ls) s.visits
    → All (Among ls) t.visits
Step-Among ls (connects l remote) on h = h
Step-Among ls (disconnects l remote before after cause e) on h = h
Step-Among ls (arrives l r seen now e) on h = (on, h)
Step-Among ls (declines l r seen now answer e) on h = h
Step-Among ls (upgrades l r before after e) on h =
    Among-replaced ls before after (upgrading l r) _ refl (rw e at h)
Step-Among ls (refuses l r before after error e) on h =
    let (front, here, back) = All-split (Among ls) before (upgrading l r) after (rw e at h) in
    All-append (Among ls) before after front back
Step-Among ls (runs l address t {t'} before after e st) on h =
    Among-replaced ls before after (live l address t) (live l address t') refl (rw e at h)

Reach-Among :
    (ls : List Listener) {now : ℕ} {s : Server} (r : Reach now s)
    → Serves ls r
    → All (Among ls) s.visits
Reach-Among ls booted on = tt
Reach-Among ls (next r st) (on, here) = Step-Among ls st here (Reach-Among ls r on)

pub live_among :
    (ls : List Listener) {now : ℕ} {s : Server} (r : Reach now s) (v : Visit)
    → Serves ls r
    → Memᴰ v s.visits
    → Memᴰ (listener_of v) ls
live_among ls {s} r v on m = All-mem (Among ls) s.visits v m (Reach-Among ls r on)
