-- ===== src/Server/Draining.antt =====
-- How a process gives back the slots that it holds.
use semantic_echo.Base.{
  sum_of, ℕ, ◌+◌, ◌≡◌, refl, sym, ◌∙◌, List, [], ◌∷◌, ◌++◌, Option, some, arith, ◌⊎◌, inl, inr, All,
  All-append, append_assoc, append-nil,
}
use semantic_echo.Base.Text.{Bytes}
use semantic_echo.Counts.{empty_of_get}
use semantic_echo.Budgets.{Budgets, per_address_sessions}
use semantic_echo.Endpoint.{Listener, finish_upgrade}
use semantic_echo.Session
use semantic_echo.Session.{
  Session, Limits, Closer, watching, closing, closed, limits_for, elapses, expires, releases,
  lifetime_reached,
}
use semantic_echo.Server.{Visit, upgrading, live, Server, view, Step, refuses, runs, Reach, next}
use semantic_echo.Server.Holding.{holds}
use semantic_echo.Server.Slots.{Reach-Inv}

-- A step of a session that neither its peer nor a worker takes.
abbrev pub IsTimer :
    {l : Limits} {address : Bytes} {s t : Session} → Session.Step l address s t → Type 0
IsTimer (elapses n) = Unit
IsTimer (expires open_ late) = Unit
IsTimer (releases why shut) = Unit
IsTimer _ = ⊥

-- A step of the process that no peer takes: an upgrade that fails, time that passes for a session, or a
-- slot that is given back.
abbrev pub IsOwn : {s t : Server} → Step s t → Type 0
IsOwn (refuses l r before after error e) = Unit
IsOwn (runs l address t before after e st) = IsTimer st
IsOwn _ = ⊥

pub data Steps : Server → Server → Type 0 where
  stay : {s : Server} → Steps s s
  then_ : {s t u : Server} (st : Step s t) → IsOwn st → Steps t u → Steps s u

Steps-Reach : {now : ℕ} {s t : Server} → Steps s t → Reach now s → Reach now t
Steps-Reach stay r = r
Steps-Reach (then_ st own more) r = Steps-Reach more (next r st)

-- A visit that holds no slot.
abbrev pub IsIdle : Visit → Type 0
IsIdle v = (a : Bytes) → holds a v ≡ 0

sum-IsIdle : (vs : List Visit) (a : Bytes) → All IsIdle vs → sum_of (holds a) vs ≡ 0
sum-IsIdle [] a h = refl
sum-IsIdle (v ∷ vs) a (h, hs) = omega (arith, h a, sum-IsIdle vs a hs)

Closer-cases :
    (c : Closer)
    → (c ≡ watching)
      ⊎ (((why : Option Bytes) × (c ≡ closing why)) ⊎ ((why : Option Bytes) × (c ≡ closed why)))
Closer-cases watching = inl refl
Closer-cases (closing why) = inr (inl (why, refl))
Closer-cases (closed why) = inr (inr (why, refl))

closed-IsIdle :
    (l : Listener) (address : Bytes) (t : Session) (why : Option Bytes)
    → t.closer ≡ closed why
    → IsIdle (live l address t)
closed-IsIdle l address t why e a = rw e refl

IsIdle-snoc :
    (done : List Visit) (v : Visit) → All IsIdle done → IsIdle v → All IsIdle (done ++ v ∷ [])
IsIdle-snoc done v h k = All-append IsIdle done (v ∷ []) h (k, tt)

Steps-append : {s t u : Server} → Steps s t → Steps t u → Steps s u
Steps-append stay more = more
Steps-append (then_ st own rest) more = then_ st own (Steps-append rest more)

-- The session when its lifetime has passed, and when it is closed for that.
abbrev aged : Listener → Budgets → Session → Session
aged l b t = record (view b t) { elapsed = t.elapsed + (limits_for l.probe).lifetime }

-- A session that is closed gives its slot back.
give_back :
    (s : Server) (before after : List Visit) (l : Listener) (address : Bytes) (t : Session)
    (why : Option Bytes)
    → s.visits ≡ before ++ live l address t ∷ after
    → t.closer ≡ closing why
    → (u : Server) × (t' : Session) × Steps s u
      × (u.visits ≡ before ++ live l address t' ∷ after)
      × (t'.closer ≡ closed why)
give_back s before after l address t why e shut =
    (_, _, then_ (runs l address t before after e (releases why shut)) tt stay, refl, refl)

-- A session that is open can be closed, and neither its peer nor its workers need to do a thing.
expire :
    (s : Server) (before after : List Visit) (l : Listener) (address : Bytes) (t : Session)
    → s.visits ≡ before ++ live l address t ∷ after
    → t.closer ≡ watching
    → (u : Server) × (t' : Session) × Steps s u
      × (u.visits ≡ before ++ live l address t' ∷ after)
      × (t'.closer ≡ closing (some lifetime_reached))
expire s before after l address t e open_ =
    let old = aged l s.limits t in
    let s' : Server = record s { visits = before ++ live l address old ∷ after } in
    (
      _,
      _,
      then_ (runs l address t before after e (elapses (limits_for l.probe).lifetime)) tt (
          then_ {s = s'} (runs l address old before after refl (expires open_ (omega arith))) tt
            stay),
      refl,
      refl,
    )

-- Every visit in turn: an upgrade that runs fails, a session that is open outlives its lifetime, and
-- one that is closed gives its slot back.
drain :
    (rest done : List Visit) (s : Server)
    → s.visits ≡ done ++ rest
    → All IsIdle done
    → (t : Server) × Steps s t × All IsIdle t.visits
drain [] done s e h = (s, stay, rw (e, append-nil done) h)
drain (upgrading l r ∷ rest) done s e h =
    let (t, more, idle) =
      drain rest done
        (record s {
          limits = (finish_upgrade l s.limits r (some [])).0;
          visits = done ++ rest;
          events = s.events ++ (finish_upgrade l s.limits r (some [])).2;
        })
        refl h in
    (t, then_ (refuses l r done rest [] e) tt more, idle)
drain (live l address t ∷ rest) done s e h = elim (Closer-cases t.closer) [
  | inl open_ ↦
      let (u, t', first, e', shut) = expire s done rest l address t e open_ in
      let (u', t'', second, e'', given) = give_back u done rest l address t' _ e' shut in
      let (v, more, idle) =
        drain rest (done ++ live l address t'' ∷ []) u'
          (e'' ∙ sym (append_assoc done (live l address t'' ∷ []) rest))
          (IsIdle-snoc done _ h (closed-IsIdle l address t'' _ given)) in
      (v, Steps-append first (Steps-append second more), idle)
  | inr (inl (why, shut)) ↦
      let (u, t', first, e', given) = give_back s done rest l address t why e shut in
      let (v, more, idle) =
        drain rest (done ++ live l address t' ∷ []) u
          (e' ∙ sym (append_assoc done (live l address t' ∷ []) rest))
          (IsIdle-snoc done _ h (closed-IsIdle l address t' _ given)) in
      (v, Steps-append first more, idle)
  | inr (inr (why, shut)) ↦
      drain rest (done ++ live l address t ∷ []) s
        (e ∙ sym (append_assoc done (live l address t ∷ []) rest))
        (IsIdle-snoc done _ h (closed-IsIdle l address t why shut))
]

idle-sessions : {now : ℕ} (s : Server) → Reach now s → All IsIdle s.visits → s.limits.sessions ≡ []
idle-sessions s r h =
    let v = Reach-Inv r in
    empty_of_get s.limits.sessions per_address_sessions v.valid.within
      (λ a. v.held a ∙ sum-IsIdle s.visits a h)

-- No slot is lost: from every state that a process can reach, steps that no peer takes, upgrades that
-- fail, sessions that outlive their lifetime and closed ones that give their slots back, lead to a
-- state in which nothing holds a slot and the map of sessions is empty.
pub drained :
    (now : ℕ) (s : Server)
    → Reach now s
    → (t : Server) × Steps s t × All IsIdle t.visits × (t.limits.sessions ≡ [])
drained now s r =
    let (t, path, idle) = drain s.visits [] s refl tt in
    (t, path, idle, idle-sessions t (Steps-Reach path r) idle)
