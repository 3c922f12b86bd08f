-- ===== src/Session/Closing.antt =====
-- `serveEcho`: how a session closes, and the reason that it gives.
use semantic_echo.Base.{◌≤◌, ◌≡◌, refl, Bool, Option, none, some, arith, ◌⊎◌, inl, inr}
use semantic_echo.Base.Text.{Bytes}
use semantic_echo.Budgets.{Budgets}
use semantic_echo.Session.{
  Limits, Worker, Closer, watching, closing, closed, Shared, Session, Move, fail, count, over,
  charge, halt, write, write_fails, send_fails, Step, works, accepts, elapses, others, stops,
  expires, leaves, releases, Reach, begin, next, offer, earliest, budget_reached, ceiling_reached,
  lifetime_reached,
}
use semantic_echo.Session.{limits_for}
use semantic_echo.Base.{sym, ◌∙◌}
use mathlib.Core.Path.{subst}

-- One of the two reasons that a worker offers.
abbrev pub IsLimit : Bytes → Type 0
IsLimit why = (why ≡ budget_reached) ⊎ (why ≡ ceiling_reached)

-- Why the session is closed, or what waits in the channel while it is not.
abbrev pub Given : Limits → Session → Option Bytes → Type 0
Given l s none = Unit {0}
Given l s (some why) =
    (s.shared.first ≡ some why) ⊎ ((why ≡ lifetime_reached) × (l.lifetime ≤ s.elapsed))

abbrev pub Reasoned : Limits → Session → Closer → Type 0
Reasoned l s watching = s.shared.stopped ≡ s.shared.first
Reasoned l s (closing why) = Given l s why
Reasoned l s (closed why) = Given l s why

record Inv (l : Limits) (s : Session) : Type 0 where
  reason : Reasoned l s s.closer
  limit : (why : Bytes) → s.shared.first ≡ some why → IsLimit why

offered-IsLimit :
    (first : Option Bytes) (why new : Bytes)
    → IsLimit new
    → ((v : Bytes) → first ≡ some v → IsLimit v)
    → earliest first new ≡ some why
    → IsLimit why
offered-IsLimit none why new n h e = let same : new ≡ why = cc in subst IsLimit same n
offered-IsLimit (some w) why new n h e = h why e

reason_of :
    (l : Limits) (s : Session) (why : Bytes)
    → ((v : Bytes) → s.shared.first ≡ some v → IsLimit v)
    → Reasoned l s (closed (some why))
    → ((s.shared.first ≡ some why) × IsLimit why)
      ⊎ ((why ≡ lifetime_reached) × (l.lifetime ≤ s.elapsed))
reason_of l s why h (inl e) = inl (e, h why e)
reason_of l s why h (inr late) = inr late

offer-earliest :
    (stopped first : Option Bytes) (why : Bytes)
    → stopped ≡ first
    → offer stopped why ≡ earliest first why
offer-earliest none none why e = refl
offer-earliest none (some w) why e = absurd cc
offer-earliest (some w) none why e = absurd cc
offer-earliest (some w) (some w') why e = e

module _ (l : Limits) where
  Move-Reasoned :
      {m m' : Shared} {w w' : Worker} (why : Bytes)
      → Move l m w m' w'
      → m.first ≡ some why
      → m'.first ≡ some why
  Move-Reasoned why fail e = e
  Move-Reasoned why (count n last) e = e
  Move-Reasoned why (over h) e = ground arith
  Move-Reasoned why (charge seen now h ok) e = e
  Move-Reasoned why (halt seen now h no_more) e = ground arith
  Move-Reasoned why write e = e
  Move-Reasoned why (write_fails k h) e = e
  Move-Reasoned why send_fails e = e

  Move-stopped :
      {m m' : Shared} {w w' : Worker}
      → Move l m w m' w'
      → m.stopped ≡ m.first
      → m'.stopped ≡ m'.first
  Move-stopped fail e = e
  Move-stopped (count n last) e = e
  Move-stopped {m} (over h) e = offer-earliest m.stopped m.first budget_reached e
  Move-stopped (charge seen now h ok) e = e
  Move-stopped {m} (halt seen now h no_more) e = offer-earliest m.stopped m.first ceiling_reached e
  Move-stopped write e = e
  Move-stopped (write_fails k h) e = e
  Move-stopped send_fails e = e

  Move-IsLimit :
      {m m' : Shared} {w w' : Worker} (why : Bytes)
      → Move l m w m' w'
      → ((v : Bytes) → m.first ≡ some v → IsLimit v)
      → m'.first ≡ some why
      → IsLimit why
  Move-IsLimit why fail h e = h why e
  Move-IsLimit why (count n last) h e = h why e
  Move-IsLimit {m} why (over k) h e = offered-IsLimit m.first why budget_reached (inl refl) h e
  Move-IsLimit why (charge seen now k ok) h e = h why e
  Move-IsLimit {m} why (halt seen now k no_more) h e =
      offered-IsLimit m.first why ceiling_reached (inr refl) h e
  Move-IsLimit why write h e = h why e
  Move-IsLimit why (write_fails k j) h e = h why e
  Move-IsLimit why send_fails h e = h why e

  Given-mono :
      (s t : Session) (why : Option Bytes)
      → ((w : Bytes) → s.shared.first ≡ some w → t.shared.first ≡ some w)
      → s.elapsed ≤ t.elapsed
      → Given l s why
      → Given l t why
  Given-mono s t none g h r = tt
  Given-mono s t (some why) g h (inl e) = inl (g why e)
  Given-mono s t (some why) g h (inr (e, late)) = inr (e, omega arith)

  Reasoned-mono :
      (s t : Session) (c : Closer)
      → (s.shared.stopped ≡ s.shared.first → t.shared.stopped ≡ t.shared.first)
      → ((why : Bytes) → s.shared.first ≡ some why → t.shared.first ≡ some why)
      → s.elapsed ≤ t.elapsed
      → Reasoned l s c
      → Reasoned l t c
  Reasoned-mono s t watching f g h r = f r
  Reasoned-mono s t (closing why) f g h r = Given-mono s t why g h r
  Reasoned-mono s t (closed why) f g h r = Given-mono s t why g h r

  module _ (address : Bytes) where
    Step-Inv : {s t : Session} → Step l address s t → Inv l s → Inv l t
    Step-Inv {s} {t} (works before after e mv) v = record {
      reason =
          Reasoned-mono s t s.closer (Move-stopped mv) (λ why. Move-Reasoned why mv) (omega arith)
            v.reason;
      limit = λ why. Move-IsLimit why mv v.limit;
    }
    Step-Inv {s} {t} accepts v = record {
      reason = Reasoned-mono s t s.closer (λ e. e) (λ why e. e) (omega arith) v.reason;
      limit = v.limit;
    }
    Step-Inv {s} {t} (elapses d) v = record {
      reason = Reasoned-mono s t s.closer (λ e. e) (λ why e. e) (omega arith) v.reason;
      limit = v.limit;
    }
    Step-Inv {s} (stops why e f) v = record {
      reason = inl (sym (rw e at v.reason) ∙ f);
      limit = v.limit;
    }
    Step-Inv (expires e late) v = record { reason = inr (refl, late); limit = v.limit }
    Step-Inv (leaves e) v = record { reason = tt; limit = v.limit }
    Step-Inv (releases why e) v = record { reason = rw e at v.reason; limit = v.limit }

    Reach-Inv : {b : Budgets} {s : Session} → Reach l address b s → Inv l s
    Reach-Inv begin = record { reason = refl; limit = λ why e. cc }
    Reach-Inv (next r st) = Step-Inv st (Reach-Inv r)
    Reach-Inv (others {s} b' r) =
        let v = Reach-Inv r in
        record {
          reason =
              Reasoned-mono s (record s { shared = record s.shared { limits = b' } }) s.closer
                (λ e. e) (λ why e. e) (omega arith) v.reason;
          limit = v.limit;
        }

-- A session that its server closed gave a reason that is true. It is the first reason that a worker
-- offered, "echo budget reached" or "daily egress ceiling reached", or it is "session lifetime
-- reached" and the lifetime had passed: in every reachable state, for any interleaving.
pub closed_reason :
    (probe : Bool) (address : Bytes) (b : Budgets) (s : Session) (why : Bytes)
    → Reach (limits_for probe) address b s
    → (s.closer ≡ closing (some why)) ⊎ (s.closer ≡ closed (some why))
    → ((s.shared.first ≡ some why) × IsLimit why)
      ⊎ ((why ≡ lifetime_reached) × ((limits_for probe).lifetime ≤ s.elapsed))
closed_reason probe address b s why r (inl e) =
    let v = Reach-Inv (limits_for probe) address r in
    reason_of (limits_for probe) s why v.limit (rw e at v.reason)
closed_reason probe address b s why r (inr e) =
    let v = Reach-Inv (limits_for probe) address r in
    reason_of (limits_for probe) s why v.limit (rw e at v.reason)
