-- ===== src/Budgets/Window.antt =====
-- One window: what happens behind the ceiling, and how often that is logged.
use semantic_echo.Base.{
  ℕ, ◌+◌, ◌-◌, ◌^◌, ◌≤◌, ◌<◌, ◌≡◌, false, List, [], ◌∷◌, arith, if◌then◌else◌, All, length,
}
use semantic_echo.Base.Word.{add64, add64_exact, lt64_exact}
use semantic_echo.Budgets.{
  Budgets, daily_egress_ceiling, day, roll, admit, acquire, release, charge, spend, egress_refusal,
  Call, acquires, releases, spends, Reply, admission, returned, verdict, step, replies, offered,
}

-- The call reads the clock less than a day behind the opening of the window at `t`.
abbrev pub Inside : ℕ → Call → Type 0
Inside t (acquires _ seen _) = seen - t < day
Inside t (releases _) = Unit {0}
Inside t (spends _ seen _) = seen - t < day

-- An admission refused for the ceiling, or an echo that must stop.
abbrev pub Refused : Reply → Type 0
Refused (admission granted why) = (granted ≡ false) × (why ≡ egress_refusal)
Refused returned = Unit {0}
Refused (verdict proceed _) = proceed ≡ false

abbrev pub logged : Reply → List ℕ
logged (verdict _ lines) = lines
logged _ = []

abbrev pub warnings : List Reply → ℕ
warnings [] = 0
warnings (r ∷ rs) = length (logged r) + warnings rs

offered-cons : (c : Call) (cs : List Call) → offered (c ∷ cs) ≡ offered (c ∷ []) + offered cs
offered-cons (acquires _ _ _) cs = omega arith
offered-cons (releases _) cs = omega arith
offered-cons (spends n _ _) cs = omega arith

-- A call inside the window keeps it, and at most adds what it offers to the counter.
record Keeps (b : Budgets) (c : Call) : Type 0 where
  window : (step b c).0.window_at ≡ b.window_at
  grows : b.echoed ≤ (step b c).0.echoed
  bounded : (step b c).0.echoed ≤ b.echoed + offered (c ∷ [])

step-Keeps :
    (b : Budgets) (c : Call)
    → Inside b.window_at c
    → b.echoed + offered (c ∷ []) < 2 ^ 63
    → Keeps b c
unfolding step acquire spend charge roll admit release
step-Keeps b (acquires k seen now) i fits = ground arith
step-Keeps b (releases k) i fits = ground arith
step-Keeps b (spends n seen now) i fits = ground (arith, add64_exact b.echoed n)

step-Refused :
    (b : Budgets) (c : Call)
    → Inside b.window_at c
    → daily_egress_ceiling ≤ b.echoed
    → b.echoed + offered (c ∷ []) < 2 ^ 63
    → Refused (step b c).1
unfolding step acquire spend charge roll admit
step-Refused b (acquires k seen now) i h fits =
    ground (arith, lt64_exact b.echoed daily_egress_ceiling)
step-Refused b (releases k) i h fits = tt
step-Refused b (spends n seen now) i h fits =
    ground (arith, add64_exact b.echoed n, lt64_exact (add64 b.echoed n) daily_egress_ceiling)

-- Behind the ceiling nothing passes: once the counter has reached the daily ceiling, every
-- admission is refused with "daily egress ceiling" and every spend says stop, for any calls that
-- read the clock less than a day behind the opening of the window, if the counter and the bytes
-- offered stay below 2 ^ 63.
pub replies-Refused :
    (cs : List Call) (b : Budgets)
    → daily_egress_ceiling ≤ b.echoed
    → b.echoed + offered cs < 2 ^ 63
    → All (Inside b.window_at) cs
    → All Refused (replies b cs)
unfolding replies
replies-Refused [] b h fits i = tt
replies-Refused (c ∷ cs) b h fits (i, is) =
    let fits' : b.echoed + offered (c ∷ []) < 2 ^ 63 = omega (arith, offered-cons c cs) in
    let k = step-Keeps b c i fits' in
    (
      step-Refused b c i h fits',
      replies-Refused cs (step b c).0 (omega (arith, k.grows))
          (omega (arith, k.bounded, offered-cons c cs)) (rw k.window is),
    )

step-warned :
    (b : Budgets) (c : Call)
    → Inside b.window_at c
    → length (logged (step b c).1) + (if b.warned then 1 else 0)
      ≡ (if (step b c).0.warned then 1 else 0)
unfolding step acquire spend charge roll admit release
step-warned b (acquires k seen now) i = ground arith
step-warned b (releases k) i = ground arith
step-warned b (spends n seen now) i = ground arith

step-window : (b : Budgets) (c : Call) → Inside b.window_at c → (step b c).0.window_at ≡ b.window_at
unfolding step acquire spend charge roll admit release
step-window b (acquires k seen now) i = ground arith
step-window b (releases k) i = ground arith
step-window b (spends n seen now) i = ground arith

-- The ceiling is logged at most once in a window: over any calls that read the clock less than a
-- day behind the opening of the window, and not at all where the window has warned already.
pub warnings-le-one :
    (cs : List Call) (b : Budgets)
    → All (Inside b.window_at) cs
    → warnings (replies b cs) + (if b.warned then 1 else 0) ≤ 1
unfolding replies
warnings-le-one [] b i = ground arith
warnings-le-one (c ∷ cs) b (i, is) =
    omega (arith, step-warned b c i, warnings-le-one cs (step b c).0 (rw (step-window b c i) is))
