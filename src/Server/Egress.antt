-- ===== src/Server/Egress.antt =====
-- What a process gives to all its peers, against the ceiling of each window.
use semantic_echo.Base.{
  List, [], ◌∷◌, ◌≡◌, true, false, length, refl, Bool-cases, inl, inr, ◌∙◌, ℕ, ◌+◌, ◌*◌, ◌^◌, ◌≤◌,
  ◌<◌, Option, none, some, if◌then◌else◌, arith, sum_of, sum_of_replaced, sum_of_removed,
}
use semantic_echo.Base.Text.{Bytes}
use semantic_echo.Budgets.{Budgets, daily_egress_ceiling, day}
use semantic_echo.Endpoint.{Listener, finish_upgrade}
use semantic_echo.Address.{address_of}
use semantic_echo.Session
use semantic_echo.Session.{
  Worker, reading, counted, charged, ended, Limits, limits_for, Shared, Session, Move, fail, count,
  over, charge, halt, write, write_fails, send_fails, works, accepts, elapses, stops, leaves,
  releases, start,
}
use semantic_echo.Server.{
  Visit, upgrading, live, Server, Step, connects, disconnects, arrives, declines, upgrades, refuses,
  runs, Reach, booted, next,
}
use semantic_echo.Server.Metering.{
  use_of_move, use_of_session, use_of, rolls, opens_at, Step-Metered,
}

-- The bytes that a session gave to its peer, or was let give and has in hand.
abbrev in_hand : Worker → ℕ
in_hand (charged n last) = n
in_hand _ = 0

abbrev pub given : Visit → ℕ
given (upgrading l r) = 0
given (live l address t) = t.shared.sent + sum_of in_hand t.workers

Move-given :
    {l : Limits} {m m' : Shared} {w w' : Worker} (mv : Move l m w m' w')
    → m'.sent + in_hand w' ≤ m.sent + in_hand w + (use_of_move mv).pays
Move-given fail = omega arith
Move-given (count n last) = omega arith
Move-given (over h) = omega arith
Move-given (charge {n} seen now h ok) = omega arith
Move-given (halt {n} seen now h no_more) = omega arith
Move-given (write {last}) = ground arith
Move-given (write_fails k h) = omega (arith, h)
Move-given send_fails = omega arith

session-given :
    (l : Listener) {ls : Limits} {address : Bytes} {s t : Session}
    (st : Session.Step ls address s t)
    → given (live l address t) ≤ given (live l address s) + (use_of_session st).pays
session-given l {s} (works {w} {w'} before after e mv) =
    omega (arith, Move-given mv, sum_of_replaced in_hand before w w' after e)
session-given l accepts = omega arith
session-given l (elapses t) = omega arith
session-given l (stops why e f) = omega arith
session-given l (Session.expires e late) = omega arith
session-given l (leaves e) = omega arith
session-given l (releases why e) = omega arith

pub Step-given :
    {s t : Server} (st : Step s t)
    → sum_of given t.visits ≤ sum_of given s.visits + (use_of st).pays
unfolding finish_upgrade
Step-given (connects l remote) = omega arith
Step-given (disconnects l remote before after cause e) = omega arith
Step-given (arrives l r seen now e) = omega arith
Step-given (declines l r seen now answer e) = omega arith
Step-given {s} (upgrades l r before after e) = omega (
  arith,
  sum_of_replaced given before (upgrading l r) (live l (address_of r.remote) (start s.limits)) after
      e,
)
Step-given (refuses l r before after error e) =
    omega (arith, sum_of_removed given before (upgrading l r) after e)
Step-given (runs l address t {t'} before after e st) = omega (
  arith,
  session-given l st,
  sum_of_replaced given before (live l address t) (live l address t') after e,
)

-- Along a history: the bytes offered to `spend`, and the bytes let through since the last window was
-- opened.
abbrev pub offered_in : {now : ℕ} {s : Server} → Reach now s → ℕ
offered_in booted = 0
offered_in (next r st) = offered_in r + (use_of st).offers

abbrev pub paid_in : {now : ℕ} {s : Server} → Reach now s → ℕ
paid_in booted = 0
paid_in (next {s} r st) =
    (if rolls s.limits (use_of st).clock then 0 else paid_in r) + (use_of st).pays

-- The instants at which the windows were opened, the last first.
abbrev pub openings : {now : ℕ} {s : Server} → Reach now s → List ℕ
openings {now} booted = now ∷ []
openings (next {s} {t} r st) =
    if rolls s.limits (use_of st).clock then t.limits.window_at ∷ openings r else openings r

-- Each is a day or more behind the one before it.
abbrev pub Spaced : List ℕ → Type 0
Spaced [] = Unit
Spaced (b ∷ []) = Unit
Spaced (b ∷ a ∷ ws) = (a + day ≤ b) × Spaced (a ∷ ws)

-- `time.Now` does not read less than the `time.Since` before it.
abbrev InOrder : Option (ℕ × ℕ) → Type 0
InOrder none = Unit
InOrder (some (seen, now)) = seen ≤ now

abbrev pub Clocked : {now : ℕ} {s : Server} → Reach now s → Type 0
Clocked booted = Unit
Clocked (next r st) = Clocked r × InOrder (use_of st).clock

record Kept {now : ℕ} {s : Server} (r : Reach now s) : Type 0 where
  counts : paid_in r ≤ s.limits.echoed
  below : paid_in r < daily_egress_ceiling
  bounded : s.limits.echoed ≤ offered_in r
  backed :
      sum_of given s.visits + daily_egress_ceiling
      ≤ length (openings r) * daily_egress_ceiling + paid_in r
  older : List ℕ
  last_is : openings r ≡ s.limits.window_at ∷ older
  spaced : Spaced (openings r)

rolls_late :
    (b : Budgets) (clock : Option (ℕ × ℕ))
    → InOrder clock
    → rolls b clock ≡ true
    → b.window_at + day ≤ opens_at b clock
rolls_late b none h e = cc
rolls_late b (some (seen, now)) h e = ground arith

stays :
    (b : Budgets) (clock : Option (ℕ × ℕ)) → rolls b clock ≡ false → opens_at b clock ≡ b.window_at
stays b none e = refl
stays b (some (seen, now)) e = ground arith

next-Kept :
    {now : ℕ} {s t : Server} (r : Reach now s) (st : Step s t)
    → offered_in r + (use_of st).offers < 2 ^ 63
    → InOrder (use_of st).clock
    → Kept r
    → Kept (next r st)
next-Kept {s} {t} r st fits clock k =
    let m = Step-Metered st (omega (arith, k.bounded)) in
    elim (Bool-cases (rolls s.limits (use_of st).clock)) [
      | inl opens ↦
          let late : s.limits.window_at + day ≤ t.limits.window_at =
            omega (arith, m.window, rolls_late s.limits (use_of st).clock clock opens) in
          record {
            counts = ground (arith, m.counted_all, opens);
            below = ground (arith, m.below, m.counted_all, opens);
            bounded = ground (arith, m.bounded, k.bounded);
            backed = ground (arith, k.backed, k.below, Step-given st, opens);
            older = openings r;
            last_is = rw opens refl;
            spaced = rw opens (rw k.last_is (late, rw k.last_is at k.spaced));
          }
      | inr keeps ↦
          let same : t.limits.window_at ≡ s.limits.window_at =
            m.window ∙ stays s.limits (use_of st).clock keeps in
          record {
            counts = ground (arith, m.counted_all, k.counts, keeps);
            below = ground (arith, m.below, m.counted_all, k.counts, k.below, keeps);
            bounded = ground (arith, m.bounded, k.bounded);
            backed = ground (arith, k.backed, k.below, Step-given st, keeps);
            older = k.older;
            last_is = rw (keeps, same) k.last_is;
            spaced = rw keeps k.spaced;
          }
    ]

Reach-Kept : {now : ℕ} {s : Server} (r : Reach now s) → offered_in r < 2 ^ 63 → Clocked r → Kept r
Reach-Kept booted fits c = record {
  counts = omega arith;
  below = omega arith;
  bounded = omega arith;
  backed = omega arith;
  older = [];
  last_is = refl;
  spaced = tt;
}
Reach-Kept (next r st) fits (c, clock) =
    next-Kept r st fits clock (Reach-Kept r (omega (arith, fits)) c)

-- The ceiling binds the whole process: in every history of fewer than 2 ^ 63 bytes offered to
-- `spend`, in which no `time.Now` reads less than the `time.Since` before it, what all sessions
-- together gave their peers, and have in hand to give, is less than the ceiling for each window
-- opened, what `spend` let through in the last window is less than the ceiling, and each window but
-- the first was opened a day or more behind the one before it.
pub given-lt-ceiling :
    (now : ℕ) (s : Server) (r : Reach now s)
    → offered_in r < 2 ^ 63
    → Clocked r
    → (sum_of given s.visits < length (openings r) * daily_egress_ceiling)
      × (paid_in r < daily_egress_ceiling)
      × Spaced (openings r)
given-lt-ceiling now s r fits c =
    let k = Reach-Kept r fits c in (omega (arith, k.backed, k.below), k.below, k.spaced)
