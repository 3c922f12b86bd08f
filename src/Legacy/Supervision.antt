-- ===== src/Legacy/Supervision.antt =====
-- `main` of legacy/main.go from its listeners on: five goroutines that send the error of their
-- listener into a channel, and `log.Fatal(<-errs)`.
-- `sent` keeps the error that a goroutine has sent, which is not in the code.
use semantic_echo.Base.{
  ℕ, ◌≤◌, ◌<◌, ◌≡◌, refl, ap, Bool, List, [], ◌∷◌, ◌++◌, Option, none, some, map, length, arith,
  sum_of, sum_of_replaced, length-append, All, All-append,
}
use mathlib.Core.List.{Memᴰ}
use mathlib.Core.List.Memᴰ
use semantic_echo.Base.Text.{Bytes}
use semantic_echo.Certs.{Crypto, ok, Draw, KeyPair}
use semantic_echo.Files.{Files}
use semantic_echo.Legacy.{Flags, Started, legacy_main}
use semantic_echo.Legacy.Publishing.{legacy_main-IsServed}

-- `make(chan error, 5)`
abbrev pub errs_capacity : ℕ
errs_capacity = 5

-- `errs <- serveWT(...)`: inside the call, behind it, and behind the send.
pub data Task : Type 0 where
  listening : Task
  stopped : (error : Bytes) → Task
  sent : (error : Bytes) → Task

pub record Process : Type 0 where
  pub tasks : List Task
  pub errs : List Bytes
  pub ended : Option Bytes

abbrev pub start_tasks {ℓ} : {A : Type ℓ} → List A → Process
start_tasks listeners = record { tasks = map (λ _. listening) listeners; errs = []; ended = none }

-- A send waits while the channel is full. Nothing runs behind `log.Fatal`.
pub data Step (s : Process) : Process → Type 0 where
  stops :
      (before after : List Task) (error : Bytes)
      → s.ended ≡ none
      → s.tasks ≡ before ++ listening ∷ after
      → Step s (record s { tasks = before ++ stopped error ∷ after })
  sends :
      (before after : List Task) (error : Bytes)
      → s.ended ≡ none
      → s.tasks ≡ before ++ stopped error ∷ after
      → length s.errs < errs_capacity
      → Step s (record s { tasks = before ++ sent error ∷ after; errs = s.errs ++ error ∷ [] })
  exits :
      (error : Bytes) (rest : List Bytes)
      → s.ended ≡ none
      → s.errs ≡ error ∷ rest
      → Step s (record s { errs = rest; ended = some error })

pub data Reach (s : Process) : Process → Type 0 where
  started : Reach s s
  next : {t u : Process} → Reach s t → Step t u → Reach s u

abbrev is_sent : Task → ℕ
is_sent listening = 0
is_sent (stopped error) = 0
is_sent (sent error) = 1

abbrev tasks_of : List Task → ℕ
tasks_of = sum_of (λ _. 1)

record Inv (n : ℕ) (s : Process) : Type 0 where
  all_there : tasks_of s.tasks ≡ n
  buffered : s.ended ≡ none → length s.errs ≡ sum_of is_sent s.tasks
  known : All (λ e. Memᴰ (sent e) s.tasks) s.errs

-- A goroutine that has not sent its error changes, and who has sent one stays known.
Mem-replaced :
    (e : Bytes) (t t' : Task) (before after : List Task)
    → is_sent t ≡ 0
    → Memᴰ (sent e) (before ++ t ∷ after)
    → Memᴰ (sent e) (before ++ t' ∷ after)
Mem-replaced e t t' [] after waits (Memᴰ.head same) =
    absurd (ground (arith, waits, ap is_sent same))
Mem-replaced e t t' [] after waits (Memᴰ.tail m) = Memᴰ.tail m
Mem-replaced e t t' (x ∷ before) after waits (Memᴰ.head same) = Memᴰ.head same
Mem-replaced e t t' (x ∷ before) after waits (Memᴰ.tail m) =
    Memᴰ.tail (Mem-replaced e t t' before after waits m)

All-replaced :
    (errs : List Bytes) (t t' : Task) (before after : List Task)
    → is_sent t ≡ 0
    → All (λ e. Memᴰ (sent e) (before ++ t ∷ after)) errs
    → All (λ e. Memᴰ (sent e) (before ++ t' ∷ after)) errs
All-replaced [] t t' before after waits h = tt
All-replaced (e ∷ errs) t t' before after waits (h, hs) =
    (Mem-replaced e t t' before after waits h, All-replaced errs t t' before after waits hs)

Step-Inv : (n : ℕ) {s t : Process} → Step s t → Inv n s → Inv n t
Step-Inv n (stops before after error runs e) v = record {
  all_there =
      omega (arith, v.all_there, sum_of_replaced (λ _. 1) before listening (stopped error) after e);
  buffered = λ r.
      omega (arith, v.buffered r, sum_of_replaced is_sent before listening (stopped error) after e);
  known = All-replaced _ listening (stopped error) before after refl (rw e at v.known);
}
Step-Inv n {s} (sends before after error runs e room) v = record {
  all_there =
      omega
        (arith, v.all_there, sum_of_replaced (λ _. 1) before (stopped error) (sent error) after e);
  buffered = λ r. omega (
    arith,
    v.buffered r,
    length-append s.errs (error ∷ []),
    sum_of_replaced is_sent before (stopped error) (sent error) after e,
  );
  known =
      All-append _ s.errs (error ∷ [])
        (All-replaced _ (stopped error) (sent error) before after refl (rw e at v.known))
        (Memᴰ.append_right before (Memᴰ.head refl), tt);
}
Step-Inv n (exits error rest runs e) v = record {
  all_there = v.all_there;
  buffered = λ r. absurd (cc);
  known = (rw e at v.known).1;
}

Reach-Inv : (n : ℕ) {s t : Process} → Reach s t → Inv n s → Inv n t
Reach-Inv n started v = v
Reach-Inv n (next r st) v = Step-Inv n st (Reach-Inv n r v)

-- Steps of the program's own: no listener stops.
abbrev pub IsOwn : {s t : Process} → Step s t → Type 0
IsOwn (stops before after error runs e) = ⊥
IsOwn (sends before after error runs e room) = Unit
IsOwn (exits error rest runs e) = Unit

pub data Steps : Process → Process → Type 0 where
  stay : {s : Process} → Steps s s
  then_ : {s t u : Process} (st : Step s t) → IsOwn st → Steps t u → Steps s u

snoc-cons :
    (xs : List Bytes) (x : Bytes) → (y : Bytes) × (ys : List Bytes) × (xs ++ x ∷ [] ≡ y ∷ ys)
snoc-cons [] x = (x, [], refl)
snoc-cons (y ∷ xs) x = (y, xs ++ x ∷ [], refl)

sent-le-tasks : (ts : List Task) → sum_of is_sent ts ≤ tasks_of ts
sent-le-tasks [] = omega arith
sent-le-tasks (listening ∷ ts) = omega (arith, sent-le-tasks ts)
sent-le-tasks (stopped e ∷ ts) = omega (arith, sent-le-tasks ts)
sent-le-tasks (sent e ∷ ts) = omega (arith, sent-le-tasks ts)

nothing_sent {ℓ} : {A : Type ℓ} (xs : List A) → 0 ≡ sum_of is_sent (start_tasks xs).tasks
nothing_sent [] = refl
nothing_sent (x ∷ xs) = omega (arith, nothing_sent xs)

-- A goroutine with an error to send finds room.
room_for :
    {s : Process} (before after : List Task) (error : Bytes)
    → Inv errs_capacity s
    → s.ended ≡ none
    → s.tasks ≡ before ++ stopped error ∷ after
    → length s.errs < errs_capacity
room_for {s} before after error v runs e = omega (
  arith,
  v.buffered runs,
  v.all_there,
  sum_of_replaced is_sent before (stopped error) (sent error) after e,
  sum_of_replaced (λ _. 1) before (stopped error) (sent error) after e,
  sent-le-tasks (before ++ sent error ∷ after),
)

-- Whoever sends, the process ends, with the error of a goroutine that sent one.
ends_from :
    {s : Process} (before after : List Task) (error : Bytes)
    → Inv errs_capacity s
    → s.ended ≡ none
    → s.tasks ≡ before ++ stopped error ∷ after
    → (t : Process) × (reported : Bytes) × Steps s t
      × (t.ended ≡ some reported)
      × Memᴰ (sent reported) t.tasks
ends_from {s} before after error v runs e =
    let sending = sends before after error runs e (room_for before after error v runs e) in
    let v' = Step-Inv errs_capacity sending v in
    let (first, rest, same) = snoc-cons s.errs error in
    (
      _,
      first,
      then_ sending tt (then_ (exits first rest runs same) tt stay),
      refl,
      (rw same at v'.known).0,
    )

module _ (c : Crypto) where
  five_tasks :
      (f : Flags) (loaded : Option (KeyPair c)) (files : Files) (first_draw second_draw : Draw c)
      (written : Bool × Bool × Bool) (m : Started c)
      → legacy_main c f loaded files first_draw second_draw written ≡ ok m
      → tasks_of (start_tasks m.listeners).tasks ≡ errs_capacity
  five_tasks f loaded files first_draw second_draw written m e =
      let (pinned, cert_sign, (chain, found, five)) =
        legacy_main-IsServed c f loaded files first_draw second_draw written m e in
      rw five refl

  -- A listener that stops takes the process with it, however many stop and in whichever order: in
  -- every state that a boot can come to, a goroutine with an error to send finds room in the
  -- channel, and if the process has not ended, its own steps alone lead to its end, with an error
  -- that one of the goroutines sent.
  pub legacy_main_ends :
      (f : Flags) (loaded : Option (KeyPair c)) (files : Files) (first_draw second_draw : Draw c)
      (written : Bool × Bool × Bool) (m : Started c) (s : Process) (before after : List Task)
      (error : Bytes)
      → legacy_main c f loaded files first_draw second_draw written ≡ ok m
      → Reach (start_tasks m.listeners) s
      → s.ended ≡ none
      → s.tasks ≡ before ++ stopped error ∷ after
      → (length s.errs < errs_capacity)
        × ((t : Process) × (reported : Bytes) × Steps s t
            × (t.ended ≡ some reported)
            × Memᴰ (sent reported) t.tasks)
  legacy_main_ends f loaded files first_draw second_draw written m s before after error boot r runs
        e =
      let v = Reach-Inv errs_capacity r (record {
        all_there = five_tasks f loaded files first_draw second_draw written m boot;
        buffered = λ _. nothing_sent m.listeners;
        known = tt;
      }) in
      (room_for before after error v runs e, ends_from before after error v runs e)
