-- ===== src/Session/Budget.antt =====
-- `serveEcho`: what a session gives its peer against its budget.
use semantic_echo.Base.{
  ℕ, ◌+◌, ◌^◌, ◌≤◌, ◌<◌, ◌≡◌, refl, Bool, true, false, List, [], ◌∷◌, ◌++◌, if◌then◌else◌, ltb,
  arith,
}
use semantic_echo.Base.Text.{Bytes}
use semantic_echo.Base.Word.{add64_exact, lt64_exact}
use semantic_echo.Budgets.{Budgets}
use semantic_echo.Session.{
  Limits, Worker, reading, counted, charged, ended, Shared, Session, Move, fail, count, over,
  charge, halt, write, write_fails, send_fails, Step, works, accepts, elapses, others, stops,
  expires, leaves, releases, Reach, begin, next,
}
use semantic_echo.Session.{limits_for}

-- The bytes that a worker may yet give to the peer.
abbrev weight : ℕ → Worker → ℕ
weight budget (counted n total _) = if ltb budget total then 0 else n
weight budget (charged n _) = n
weight budget _ = 0

abbrev weights : ℕ → List Worker → ℕ
weights budget [] = 0
weights budget (w ∷ ws) = weight budget w + weights budget ws

weights-append :
    (budget : ℕ) (xs ys : List Worker)
    → weights budget (xs ++ ys) ≡ weights budget xs + weights budget ys
weights-append budget [] ys = omega arith
weights-append budget (x ∷ xs) ys = omega (arith, weights-append budget xs ys)

-- A count in flight is no more than what was received.
abbrev Counted : ℕ → Worker → Type 0
Counted received (counted _ total _) = total ≤ received
Counted received _ = Unit {0}

abbrev AllCounted : ℕ → List Worker → Type 0
AllCounted received [] = Unit {0}
AllCounted received (w ∷ ws) = Counted received w × AllCounted received ws

record Inv (budget : ℕ) (m : Shared) (ws : List Worker) : Type 0 where
  exact : m.echoed ≡ m.received
  counts : AllCounted m.received ws
  within : m.sent + weights budget ws ≤ budget
  backed : m.sent + weights budget ws ≤ m.received

Counted-mono : (a b : ℕ) (w : Worker) → a ≤ b → Counted a w → Counted b w
Counted-mono a b reading h c = tt
Counted-mono a b (counted n total last) h c = omega arith
Counted-mono a b (charged n last) h c = tt
Counted-mono a b ended h c = tt

AllCounted-mono : (a b : ℕ) (ws : List Worker) → a ≤ b → AllCounted a ws → AllCounted b ws
AllCounted-mono a b [] h c = tt
AllCounted-mono a b (w ∷ ws) h c = (Counted-mono a b w h c.0, AllCounted-mono a b ws h c.1)

AllCounted-append :
    (a : ℕ) (xs ys : List Worker) → AllCounted a (xs ++ ys) → AllCounted a xs × AllCounted a ys
AllCounted-append a [] ys c = (tt, c)
AllCounted-append a (x ∷ xs) ys c = let (cx, cy) = AllCounted-append a xs ys c.1 in ((c.0, cx), cy)

AllCounted-join :
    (a : ℕ) (xs ys : List Worker) → AllCounted a xs → AllCounted a ys → AllCounted a (xs ++ ys)
AllCounted-join a [] ys c d = d
AllCounted-join a (x ∷ xs) ys c d = (c.0, AllCounted-join a xs ys c.1 d)

-- What a move of one worker does, `rest` being the weight of the others.
record Kept (budget : ℕ) (m : Shared) (w : Worker) (rest : ℕ) : Type 0 where
  exact : m.echoed ≡ m.received
  count : Counted m.received w
  within : m.sent + weight budget w + rest ≤ budget
  backed : m.sent + weight budget w + rest ≤ m.received

module _ (l : Limits) (small : l.budget < 2 ^ 63) where
  Move-received : {m m' : Shared} {w w' : Worker} → Move l m w m' w' → m.received ≤ m'.received
  Move-received fail = omega arith
  Move-received (count n last) = omega arith
  Move-received (over h) = omega arith
  Move-received (charge seen now h k) = omega arith
  Move-received (halt seen now h k) = omega arith
  Move-received write = omega arith
  Move-received (write_fails k h) = omega arith
  Move-received send_fails = omega arith

  Move-Kept :
      (rest : ℕ) {m m' : Shared} {w w' : Worker}
      → Move l m w m' w'
      → m'.received < 2 ^ 63
      → Kept l.budget m w rest
      → Kept l.budget m' w' rest
  Move-Kept rest fail fits k = ground arith
  Move-Kept rest {m} (count n last) fits k = ground (arith, add64_exact m.echoed n)
  Move-Kept rest (over h) fits k = ground arith
  Move-Kept rest (charge {total} seen now h ok) fits k = ground (arith, lt64_exact l.budget total)
  Move-Kept rest (halt seen now h no_more) fits k = ground arith
  Move-Kept rest (write {last}) fits k = ground arith
  Move-Kept rest (write_fails j h) fits k = ground arith
  Move-Kept rest send_fails fits k = ground arith

  module _ (address : Bytes) where
    Step-received : {s t : Session} → Step l address s t → s.shared.received ≤ t.shared.received
    Step-received (works before after e mv) = Move-received mv
    Step-received accepts = omega arith
    Step-received (elapses t) = omega arith
    Step-received (stops why e f) = omega arith
    Step-received (expires e h) = omega arith
    Step-received (leaves e) = omega arith
    Step-received (releases why e) = omega arith

    works-Inv :
        {m m' : Shared} {w w' : Worker} (before after : List Worker)
        → Move l m w m' w'
        → m'.received < 2 ^ 63
        → Inv l.budget m (before ++ w ∷ after)
        → Inv l.budget m' (before ++ w' ∷ after)
    works-Inv {m} {m'} {w} {w'} before after mv fits v =
        let rest = weights l.budget before + weights l.budget after in
        let (cb, cw) = AllCounted-append m.received before (w ∷ after) v.counts in
        let k : Kept l.budget m w rest = record {
          exact = v.exact;
          count = cw.0;
          within = omega (arith, v.within, weights-append l.budget before (w ∷ after));
          backed = omega (arith, v.backed, weights-append l.budget before (w ∷ after));
        } in
        let k' = Move-Kept rest mv fits k in
        let grown = AllCounted-mono m.received m'.received in
        record {
          exact = k'.exact;
          counts =
              AllCounted-join m'.received before (w' ∷ after) (grown before (Move-received mv) cb)
                (k'.count, grown after (Move-received mv) cw.1);
          within = omega (arith, k'.within, weights-append l.budget before (w' ∷ after));
          backed = omega (arith, k'.backed, weights-append l.budget before (w' ∷ after));
        }

    Step-Inv :
        {s t : Session}
        → Step l address s t
        → t.shared.received < 2 ^ 63
        → Inv l.budget s.shared s.workers
        → Inv l.budget t.shared t.workers
    Step-Inv {s} (works {w} before after e mv) fits v = works-Inv before after mv fits (rw e at v)
    Step-Inv accepts fits v = record {
      exact = v.exact;
      counts = (tt, v.counts);
      within = omega (arith, v.within);
      backed = omega (arith, v.backed);
    }
    Step-Inv (elapses t) fits v = v
    Step-Inv (stops why e f) fits v = record {
      exact = v.exact;
      counts = v.counts;
      within = v.within;
      backed = v.backed;
    }
    Step-Inv (expires e h) fits v = v
    Step-Inv (leaves e) fits v = v
    Step-Inv (releases why e) fits v = record {
      exact = v.exact;
      counts = v.counts;
      within = v.within;
      backed = v.backed;
    }

    Reach-Inv :
        {b : Budgets} {s : Session}
        → Reach l address b s
        → s.shared.received < 2 ^ 63
        → Inv l.budget s.shared s.workers
    Reach-Inv begin fits = record {
      exact = refl;
      counts = (tt, tt);
      within = omega arith;
      backed = omega arith;
    }
    Reach-Inv (next r st) fits = Step-Inv st fits (Reach-Inv r (omega (arith, Step-received st)))
    Reach-Inv (others b' r) fits =
        let v = Reach-Inv r fits in
        record { exact = v.exact; counts = v.counts; within = v.within; backed = v.backed }

small_budget : (probe : Bool) → (limits_for probe).budget < 2 ^ 63
small_budget true = omega arith
small_budget false = omega arith

-- A session never gives its peer more than its budget, 1 MiB, or 64 MiB on the probe's port, nor
-- more than it received: in every state that the datagram loop, any number of streams, the closing
-- goroutine and other sessions can reach in any interleaving, if fewer than 2 ^ 63 bytes were
-- received.
pub sent-le-budget :
    (probe : Bool) (address : Bytes) (b : Budgets) (s : Session)
    → Reach (limits_for probe) address b s
    → s.shared.received < 2 ^ 63
    → (s.shared.sent ≤ (limits_for probe).budget) × (s.shared.sent ≤ s.shared.received)
sent-le-budget probe address b s r fits =
    let v = Reach-Inv (limits_for probe) (small_budget probe) address r fits in
    omega (arith, v.within, v.backed)
