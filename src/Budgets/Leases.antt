-- ===== src/Budgets/Leases.antt =====
-- The map of sessions against a bag of leases: an address once for each session that it holds.
use semantic_echo.Base.{ℕ, ◌+◌, ◌-◌, ◌≡◌, refl, true, List, [], ◌∷◌, arith, if◌then◌else◌}
use semantic_echo.Base.Text.{Bytes, bytes_eq, bytes_eq_iff, bytes_eq_refl}
use semantic_echo.Base.Word.{add64, sub64, add64_exact, sub64_exact, lt64_exact}
use semantic_echo.Counts.{get, get-set, get-delete, set-set_back, delete-set_new}
use semantic_echo.Budgets.Invariant.{
  IsValid, get_small, step-IsValid, fresh-IsValid, roll-IsValid, roll-sessions, charge-sessions,
}
use semantic_echo.Budgets.{
  Budgets, per_address_sessions, fresh, roll, admit, acquire, release, spend, Call, acquires,
  releases, spends, Reply, admission, step, run,
}

abbrev pub count : Bytes → List Bytes → ℕ
count a [] = 0
count a (x ∷ xs) = (if bytes_eq x a then 1 else 0) + count a xs

-- One lease of the address is given back, if there is one.
unfoldable pub give_back : Bytes → List Bytes → List Bytes
give_back a [] = []
give_back a (x ∷ xs) = if bytes_eq x a then xs else x ∷ give_back a xs

-- What a call does to the bag: the bag knows nothing of the map, only of the replies.
unfoldable pub lease : List Bytes → Call → Reply → List Bytes
lease held (acquires address _ _) (admission granted _) = if granted then address ∷ held else held
lease held (releases address) _ = give_back address held
lease held _ _ = held

unfoldable pub leases : Budgets → List Bytes → List Call → List Bytes
leases b held [] = held
leases b held (c ∷ cs) = let (b', reply) = step b c in leases b' (lease held c reply) cs

-- Each address holds as many sessions in the map as it has leases in the bag.
abbrev pub Holds : Budgets → List Bytes → Type 0
Holds b held = (a : Bytes) → get b.sessions a ≡ count a held

count-give_back :
    (a k : Bytes) (held : List Bytes)
    → count a (give_back k held) ≡ (if bytes_eq k a then count a held - 1 else count a held)
unfolding give_back
count-give_back a k [] = ground arith
count-give_back a k (x ∷ xs) =
    ground (arith, count-give_back a k xs, bytes_eq_iff x k, bytes_eq_iff x a, bytes_eq_iff k a)

-- `release` takes one session from its address, down to none, and touches no other.
pub get-release :
    {b : Budgets} (k a : Bytes)
    → IsValid b
    → get (release b k).sessions a
      ≡ (if bytes_eq k a then get b.sessions a - 1 else get b.sessions a)
unfolding release
get-release {b} k a v = ground (
  arith,
  bytes_eq_iff k a,
  get_small v k,
  lt64_exact 1 (get b.sessions k),
  sub64_exact (get b.sessions k) 1,
  get-set b.sessions k a (sub64 (get b.sessions k) 1),
  get-delete b.sessions k a,
)

-- `admit` adds one session to its address where it grants one, and touches no other.
pub get-admit :
    (most : ℕ) {b : Budgets} (k a : Bytes)
    → IsValid b
    → get (admit most b k).0.sessions a
      ≡ get b.sessions a + (if (admit most b k).1 then (if bytes_eq k a then 1 else 0) else 0)
unfolding admit
get-admit most {b} k a v = ground (
  arith,
  bytes_eq_iff k a,
  get_small v k,
  add64_exact (get b.sessions k) 1,
  get-set b.sessions k a (add64 (get b.sessions k) 1),
)

step-Holds :
    {b : Budgets} (held : List Bytes) (c : Call)
    → IsValid b
    → Holds b held
    → Holds (step b c).0 (lease held c (step b c).1)
unfolding step lease acquire spend
step-Holds {b} held (acquires k seen now) v h a = ground (
  arith,
  h a,
  roll-sessions b seen now,
  get-admit per_address_sessions k a (roll-IsValid seen now v),
)
step-Holds held (releases k) v h a =
    ground (arith, h a, get-release k a v, count-give_back a k held)
step-Holds {b} held (spends n seen now) v h a =
    ground (arith, h a, roll-sessions b seen now, charge-sessions (roll b seen now) n)

run-Holds :
    (cs : List Call) (b : Budgets) (held : List Bytes)
    → IsValid b
    → Holds b held
    → Holds (run b cs) (leases b held cs)
unfolding run leases
run-Holds [] b held v h = h
run-Holds (c ∷ cs) b held v h =
    run-Holds cs (step b c).0 (lease held c (step b c).1) (step-IsValid c v) (step-Holds held c v h)

-- The map refines the bag of leases: after any history from the initial state each address reads,
-- in the map, the number of its leases: one for each acquire that was granted to it, less one for
-- each release while it had any.
pub run-fresh-Holds :
    (now : ℕ) (cs : List Call) → Holds (run (fresh now) cs) (leases (fresh now) [] cs)
unfolding get
run-fresh-Holds now cs = run-Holds cs (fresh now) [] (fresh-IsValid now) (λ a. refl)

-- A map entry that `admit` wrote is taken back by `release`.
pub release-admit :
    (most : ℕ) {b : Budgets} (k : Bytes)
    → IsValid b
    → (admit most b k).1 ≡ true
    → release (admit most b k).0 k ≡ b
unfolding release admit
release-admit most {b} k v granted = ground (
  arith,
  get_small v k,
  bytes_eq_refl k,
  add64_exact (get b.sessions k) 1,
  get-set b.sessions k k (add64 (get b.sessions k) 1),
  lt64_exact 1 (add64 (get b.sessions k) 1),
  sub64_exact (add64 (get b.sessions k) 1) 1,
  set-set_back b.sessions k (add64 (get b.sessions k) 1),
  delete-set_new b.sessions k (add64 (get b.sessions k) 1) per_address_sessions,
  v.within,
)
