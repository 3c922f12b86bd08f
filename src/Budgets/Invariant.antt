-- ===== src/Budgets/Invariant.antt =====
-- What every call of a method keeps true of the map of sessions.
use semantic_echo.Base.{ℕ, ◌≤◌, ◌≡◌, List, [], ◌∷◌, arith}
use semantic_echo.Base.Text.{Bytes}
use semantic_echo.Base.Word.{add64, sub64, add64_exact, sub64_exact, lt64_exact}
use semantic_echo.Counts.{
  get, Within, Distinct, get-Within, set-Within, delete-Within, set-Distinct, delete-Distinct,
}
use semantic_echo.Budgets.{
  Budgets, per_address_sessions, fresh, roll, admit, acquire, release, charge, spend, Call,
  acquires, releases, spends, step, run,
}

-- The map has one entry for each address that holds a session, with a count from 1 to the cap.
pub record IsValid (b : Budgets) : Type 0 where
  pub within : Within per_address_sessions b.sessions
  pub distinct : Distinct b.sessions

pub get_small :
    {b : Budgets} → IsValid b → (address : Bytes) → get b.sessions address ≤ per_address_sessions
get_small {b} v address = get-Within per_address_sessions b.sessions address v.within

pub roll-sessions : (b : Budgets) (seen now : ℕ) → (roll b seen now).sessions ≡ b.sessions
unfolding roll
roll-sessions b seen now = ground arith

pub charge-sessions : (b : Budgets) (n : ℕ) → (charge b n).0.sessions ≡ b.sessions
unfolding charge
charge-sessions b n = ground arith

pub roll-IsValid : {b : Budgets} (seen now : ℕ) → IsValid b → IsValid (roll b seen now)
roll-IsValid {b} seen now v = record {
  within = rw (roll-sessions b seen now) v.within;
  distinct = rw (roll-sessions b seen now) v.distinct;
}

pub admit-IsValid :
    (most : ℕ) {b : Budgets} (address : Bytes)
    → most ≤ per_address_sessions
    → IsValid b
    → IsValid (admit most b address).0
unfolding admit
admit-IsValid most {b} address h v = ground (
  arith,
  get_small v address,
  lt64_exact (get b.sessions address) most,
  add64_exact (get b.sessions address) 1,
  set-Within per_address_sessions b.sessions address (add64 (get b.sessions address) 1),
  set-Distinct b.sessions address (add64 (get b.sessions address) 1) v.distinct,
)

pub release-IsValid : {b : Budgets} (address : Bytes) → IsValid b → IsValid (release b address)
unfolding release
release-IsValid {b} address v = ground (
  arith,
  get_small v address,
  lt64_exact 1 (get b.sessions address),
  sub64_exact (get b.sessions address) 1,
  set-Within per_address_sessions b.sessions address (sub64 (get b.sessions address) 1),
  set-Distinct b.sessions address (sub64 (get b.sessions address) 1) v.distinct,
  delete-Within per_address_sessions b.sessions address v.within,
  delete-Distinct b.sessions address v.distinct,
)

pub spend-IsValid : {b : Budgets} (n seen now : ℕ) → IsValid b → IsValid (spend b n seen now).0
unfolding spend
spend-IsValid {b} n seen now v =
    let w = roll-IsValid seen now v in
    record {
      within = rw (charge-sessions (roll b seen now) n) w.within;
      distinct = rw (charge-sessions (roll b seen now) n) w.distinct;
    }

pub step-IsValid : {b : Budgets} (c : Call) → IsValid b → IsValid (step b c).0
unfolding step acquire
step-IsValid (acquires address seen now) v =
    admit-IsValid per_address_sessions address (omega arith) (roll-IsValid seen now v)
step-IsValid (releases address) v = release-IsValid address v
step-IsValid (spends n seen now) v = spend-IsValid n seen now v

pub run-IsValid : (cs : List Call) (b : Budgets) → IsValid b → IsValid (run b cs)
unfolding run
run-IsValid [] b v = v
run-IsValid (c ∷ cs) b v = run-IsValid cs (step b c).0 (step-IsValid c v)

pub fresh-IsValid : (now : ℕ) → IsValid (fresh now)
fresh-IsValid now = record { within = tt; distinct = tt }

-- After any history of calls of `acquire`, `release` and `spend` on the initial state, in any order
-- and at any times, the map has one entry for each of its addresses, and each count in it is at
-- least 1 and at most 4.
pub run-fresh-IsValid : (now : ℕ) (cs : List Call) → IsValid (run (fresh now) cs)
run-fresh-IsValid now cs = run-IsValid cs (fresh now) (fresh-IsValid now)
