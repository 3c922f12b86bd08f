-- ===== src/Server/Metering.antt =====
-- What one step of a process does to the window of `limits`.
use semantic_echo.Base.{
  ℕ, ◌+◌, ◌^◌, ◌≤◌, ◌<◌, ◌≡◌, refl, Bool, false, Option, none, some, if◌then◌else◌, arith,
}
use semantic_echo.Base.Text.{Bytes}
use semantic_echo.Base.Word.{add64, add64_exact, lt64_exact}
use semantic_echo.Budgets.{Budgets, daily_egress_ceiling, expires, roll, admit, release, spend}
use semantic_echo.Budgets
use semantic_echo.Endpoint.{acquire_probe, finish_upgrade}
use semantic_echo.Endpoint.Slots.{open_slot_cases}
use semantic_echo.Address.{address_of}
use semantic_echo.Session
use semantic_echo.Session.{
  Worker, reading, counted, charged, ended, Closer, watching, closed, Limits, limits_for, Shared,
  Session, Move, fail, count, over, charge, halt, write, write_fails, send_fails, works, accepts,
  elapses, stops, leaves, releases, start,
}
use semantic_echo.Server.{
  Server, Step, connects, disconnects, arrives, declines, upgrades, refuses, runs,
}

-- The readings of the clock that a step takes for `roll`, if it calls it, the bytes that it offers to
-- `spend`, and those of them that `spend` lets through.
pub record Use : Type 0 where
  pub clock : Option (ℕ × ℕ)
  pub offers : ℕ
  pub pays : ℕ

abbrev no_use : Use
no_use = record { clock = none; offers = 0; pays = 0 }

abbrev pub use_of_move : {l : Limits} {m m' : Shared} {w w' : Worker} → Move l m w m' w' → Use
use_of_move (charge {n} seen now h ok) = record { clock = some (seen, now); offers = n; pays = n }
use_of_move (halt {n} seen now h no_more) = record {
  clock = some (seen, now);
  offers = n;
  pays = 0;
}
use_of_move _ = no_use

abbrev pub use_of_session :
    {l : Limits} {address : Bytes} {s t : Session} → Session.Step l address s t → Use
use_of_session (works before after e mv) = use_of_move mv
use_of_session _ = no_use

abbrev pub use_of : {s t : Server} → Step s t → Use
use_of (arrives l r seen now e) = record { clock = some (seen, now); offers = 0; pays = 0 }
use_of (declines l r seen now answer e) = record { clock = some (seen, now); offers = 0; pays = 0 }
use_of (runs l address t before after e st) = use_of_session st
use_of _ = no_use

-- The step opens a new window.
abbrev pub rolls : Budgets → Option (ℕ × ℕ) → Bool
rolls b none = false
rolls b (some (seen, _)) = Budgets.expires b seen

abbrev pub opens_at : Budgets → Option (ℕ × ℕ) → ℕ
opens_at b none = b.window_at
opens_at b (some (seen, now)) = if Budgets.expires b seen then now else b.window_at

pub record Metered (b : Budgets) (u : Use) (b' : Budgets) : Type 0 where
  pub window : b'.window_at ≡ opens_at b u.clock
  pub bounded : b'.echoed ≤ b.echoed + u.offers
  pub counted_all : (if rolls b u.clock then 0 else b.echoed) + u.pays ≤ b'.echoed
  pub below : 0 < u.pays → b'.echoed < daily_egress_ceiling

same-Metered :
    (b b' : Budgets) → b'.window_at ≡ b.window_at → b'.echoed ≡ b.echoed → Metered b no_use b'
same-Metered b b' e f = record {
  window = e;
  bounded = omega (arith, f);
  counted_all = omega (arith, f);
  below = λ h. absurd (omega (arith, h));
}

release-Metered : (b : Budgets) (a : Bytes) → Metered b no_use (release b a)
unfolding release
release-Metered b a = same-Metered b _ (ground arith) (ground arith)

acquire_probe-Metered :
    (b : Budgets) (a : Bytes) (probe : Bool) (seen now : ℕ)
    → Metered b
        (record { clock = some (seen, now); offers = 0; pays = 0 })
        (acquire_probe b a probe seen now).0
unfolding acquire_probe admit roll
acquire_probe-Metered b a probe seen now = record {
  window = ground arith;
  bounded = ground arith;
  counted_all = ground arith;
  below = λ h. absurd (omega (arith, h));
}

spend-Metered :
    (b : Budgets) (n seen now : ℕ)
    → b.echoed + n < 2 ^ 63
    → Metered b
        (record {
          clock = some (seen, now);
          offers = n;
          pays = if (spend b n seen now).1 then n else 0;
        })
        (spend b n seen now).0
unfolding spend Budgets.charge roll
spend-Metered b n seen now fits = record {
  window = ground arith;
  bounded = ground (arith, add64_exact b.echoed n, add64_exact 0 n);
  counted_all = ground (arith, add64_exact b.echoed n, add64_exact 0 n);
  below = λ h. ground (
    arith,
    h,
    add64_exact b.echoed n,
    add64_exact 0 n,
    lt64_exact (add64 b.echoed n) daily_egress_ceiling,
    lt64_exact (add64 0 n) daily_egress_ceiling,
  );
}

Move-Metered :
    {l : Limits} {m m' : Shared} {w w' : Worker} (mv : Move l m w m' w')
    → m.limits.echoed + (use_of_move mv).offers < 2 ^ 63
    → Metered m.limits (use_of_move mv) m'.limits
Move-Metered {m} fail fits = same-Metered m.limits _ refl refl
Move-Metered {m} (count n last) fits = same-Metered m.limits _ refl refl
Move-Metered {m} (over h) fits = same-Metered m.limits _ refl refl
Move-Metered {m} (charge {n} seen now h ok) fits = rw ok at (spend-Metered m.limits n seen now fits)
Move-Metered {m} (halt {n} seen now h no_more) fits =
    rw no_more at (spend-Metered m.limits n seen now fits)
Move-Metered {m} write fits = same-Metered m.limits _ refl refl
Move-Metered {m} (write_fails k h) fits = same-Metered m.limits _ refl refl
Move-Metered {m} send_fails fits = same-Metered m.limits _ refl refl

session-Metered :
    {l : Limits} {address : Bytes} {s t : Session} (st : Session.Step l address s t)
    → s.shared.limits.echoed + (use_of_session st).offers < 2 ^ 63
    → Metered s.shared.limits (use_of_session st) t.shared.limits
session-Metered (works before after e mv) fits = Move-Metered mv fits
session-Metered {s} accepts fits = same-Metered s.shared.limits _ refl refl
session-Metered {s} (elapses t) fits = same-Metered s.shared.limits _ refl refl
session-Metered {s} (stops why e f) fits = same-Metered s.shared.limits _ refl refl
session-Metered {s} (Session.expires e late) fits = same-Metered s.shared.limits _ refl refl
session-Metered {s} (leaves e) fits = same-Metered s.shared.limits _ refl refl
session-Metered {address} {s} (releases why e) fits = release-Metered s.shared.limits address

pub Step-Metered :
    {s t : Server} (st : Step s t)
    → s.limits.echoed + (use_of st).offers < 2 ^ 63
    → Metered s.limits (use_of st) t.limits
unfolding finish_upgrade
Step-Metered {s} (connects l remote) fits = same-Metered s.limits _ refl refl
Step-Metered {s} (disconnects l remote before after cause e) fits =
    same-Metered s.limits _ refl refl
Step-Metered {s} (arrives l r seen now e) fits =
    rw (open_slot_cases l s.limits r seen now).0
      (acquire_probe-Metered s.limits (address_of r.remote) l.probe seen now)
Step-Metered {s} (declines l r seen now answer e) fits =
    rw (open_slot_cases l s.limits r seen now).0
      (acquire_probe-Metered s.limits (address_of r.remote) l.probe seen now)
Step-Metered {s} (upgrades l r before after e) fits = same-Metered s.limits _ refl refl
Step-Metered {s} (refuses l r before after error e) fits =
    release-Metered s.limits (address_of r.remote)
Step-Metered (runs l address t before after e st) fits = session-Metered st fits
