-- ===== src/Budgets.antt =====
-- `budgets` of main.go, which legacy/main.go repeats: the sessions that each address holds, the
-- bytes echoed in the current window and the warning about the ceiling.
-- A method holds the mutex from its first line to its last, so it is one function of the state.
-- Times are readings of the monotonic clock in nanoseconds: `seen` is the one behind `time.Since`,
-- `now` the one that `time.Now` takes next. What a method logs is returned beside its result.
pub mod Invariant
pub mod Leases
pub mod Window
use semantic_echo.Base.{
  ℕ, ◌-◌, ◌*◌, ◌^◌, ◌+◌, ◌≡◌, refl, Bool, true, false, not, List, [], ◌∷◌, leb, if◌then◌else◌,
}
use semantic_echo.Base.Text.{Bytes, codes}
use semantic_echo.Base.Word.{add64, sub64, lt64}
use semantic_echo.Counts.{Counts, get, set, delete}

abbrev pub per_address_sessions : ℕ
per_address_sessions = 4

-- 2 << 30
abbrev pub daily_egress_ceiling : ℕ
daily_egress_ceiling = 2 * 2 ^ 30

-- 24 * time.Hour
abbrev pub day : ℕ
day = 24 * 3600 * 1_000_000_000

pub record Budgets : Type 0 where
  pub sessions : Counts
  pub echoed : ℕ
  pub window_at : ℕ
  pub warned : Bool

-- The initial value of `limits`.
abbrev pub fresh : ℕ → Budgets
fresh now = record { sessions = []; echoed = 0; window_at = now; warned = false }

abbrev pub egress_refusal : Bytes
egress_refusal = codes "daily egress ceiling"

abbrev pub cap_refusal : Bytes
cap_refusal = codes "per-address session cap"

-- The test of `roll`: the window has run its day.
abbrev pub expires : Budgets → ℕ → Bool
expires b seen = leb day (seen - b.window_at)

unfoldable pub roll : Budgets → ℕ → ℕ → Budgets
roll b seen now =
    if expires b seen then record b { echoed = 0; window_at = now; warned = false } else b

-- What `acquire` does behind `roll`, for a given cap on the sessions of one address.
unfoldable pub admit : ℕ → Budgets → Bytes → Budgets × Bool × Bytes
admit most b address =
    if not (lt64 b.echoed daily_egress_ceiling)
    then (b, false, egress_refusal)
    else if not (lt64 (get b.sessions address) most)
    then (b, false, cap_refusal)
    else (
      record b { sessions = set b.sessions address (add64 (get b.sessions address) 1) },
      true,
      [],
    )

unfoldable pub acquire : Budgets → Bytes → ℕ → ℕ → Budgets × Bool × Bytes
unfolding admit roll
acquire b address seen now = admit per_address_sessions (roll b seen now) address

unfoldable pub release : Budgets → Bytes → Budgets
release b address =
    if lt64 1 (get b.sessions address)
    then record b { sessions = set b.sessions address (sub64 (get b.sessions address) 1) }
    else record b { sessions = delete b.sessions address }

-- What `spend` does behind `roll`. The list holds the byte counts of the warnings logged.
unfoldable pub charge : Budgets → ℕ → Budgets × Bool × List ℕ
charge b n =
    let total = add64 b.echoed n in
    let counted = record b { echoed = total } in
    if lt64 total daily_egress_ceiling
    then (counted, true, [])
    else if not b.warned
    then (record counted { warned = true }, false, total ∷ [])
    else (counted, false, [])

unfoldable pub spend : Budgets → ℕ → ℕ → ℕ → Budgets × Bool × List ℕ
unfolding charge roll
spend b n seen now = charge (roll b seen now) n

-- One call of a method, with the readings of the clock that it takes.
pub data Call : Type 0 where
  acquires : (address : Bytes) (seen now : ℕ) → Call
  releases : (address : Bytes) → Call
  spends : (n seen now : ℕ) → Call

pub data Reply : Type 0 where
  admission : (granted : Bool) (why : Bytes) → Reply
  returned : Reply
  verdict : (proceed : Bool) (logged : List ℕ) → Reply

unfoldable pub step : Budgets → Call → Budgets × Reply
step b (acquires address seen now) =
    let (b', granted, why) = acquire b address seen now in (b', admission granted why)
step b (releases address) = (release b address, returned)
step b (spends n seen now) =
    let (b', proceed, logged) = spend b n seen now in (b', verdict proceed logged)

-- The state after a history of calls, in the order in which they took the mutex.
unfoldable pub run : Budgets → List Call → Budgets
run b [] = b
run b (c ∷ cs) = run (step b c).0 cs

-- The bytes that a history offers to `spend`.
abbrev pub offered : List Call → ℕ
offered [] = 0
offered (spends n _ _ ∷ cs) = n + offered cs
offered (_ ∷ cs) = offered cs

-- The replies to a history of calls.
unfoldable pub replies : Budgets → List Call → List Reply
replies b [] = []
replies b (c ∷ cs) = (step b c).1 ∷ replies (step b c).0 cs
