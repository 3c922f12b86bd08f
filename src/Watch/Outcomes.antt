-- ===== src/Watch/Outcomes.antt =====
-- How one request of "/echo" ends, and the last thing that its handler writes down.
use semantic_echo.Base.{
  ◌≡◌, refl, ap, ◌∙◌, Bool, List, [], ◌∷◌, ◌++◌, Option, none, some, inl, inr, Bool-cases,
  if◌then◌else◌, ℕ,
}
use mathlib.Core.Path.{subst}
use semantic_echo.Base.Text.{Bytes, codes}
use semantic_echo.Budgets.{Budgets}
use semantic_echo.Endpoint.{
  Event, Answer, status, upgraded, service_unavailable, internal_server_error, Request, Listener,
  observe, connect, session, refused, declined, acquire_probe, open_slot, finish_upgrade, handle,
}
use semantic_echo.Address.{address_of}

-- The last event says how the handler answered: declined and why, refused and by what error, or
-- upgraded.
pub data Outcome (l : Listener) (r : Request) (upgrade : Option Bytes)
    : Answer → Event → Type 0 where
  was_declined :
      (why : Bytes) → Outcome l r upgrade (status service_unavailable) (observe l r declined why)
  was_refused :
      (error : Bytes)
      → upgrade ≡ some error
      → Outcome l r upgrade (status internal_server_error) (observe l r refused error)
  was_upgraded : upgrade ≡ none → Outcome l r upgrade upgraded (observe l r session [])

last_or : Event → List Event → Event
last_or d [] = d
last_or d (e ∷ es) = last_or e es

last_or-snoc : (d e : Event) (es : List Event) → last_or d (es ++ e ∷ []) ≡ e
unfolding last_or
last_or-snoc d e [] = refl
last_or-snoc d e (x ∷ es) = last_or-snoc x e es

last_of_two : (x y e : Event) (es : List Event) → x ∷ y ∷ [] ≡ es ++ e ∷ [] → y ≡ e
unfolding last_or
last_of_two x y e es h = ap (last_or x) h ∙ last_or-snoc x e es

module _ (l : Listener) (b : Budgets) (r : Request) (seen now : ℕ) (upgrade : Option Bytes) where
  abbrev arrived : Event
  arrived = observe l r connect (codes "origin=" ++ r.origin)

  abbrev taken : Budgets × Bool × Bytes
  taken = acquire_probe b (address_of r.remote) l.probe seen now

  abbrev opened : Bool → Budgets × Option Answer × List Event
  opened granted =
      if granted
      then (taken.0, none, arrived ∷ [])
      else (taken.0, some (status service_unavailable), arrived ∷ observe l r declined taken.2 ∷ [])

  abbrev answered : Budgets × Option Answer × List Event → Budgets × Answer × List Event
  answered (b', early, events) = elim early [
    | some answer ↦ (b', answer, events)
    | none ↦
        let (b'', answer, more) = finish_upgrade l b' r upgrade in (b'', answer, events ++ more)
  ]

  handle-opened :
      {granted : Bool}
      → taken.1 ≡ granted
      → handle l b r seen now upgrade ≡ answered (opened granted)
  unfolding handle open_slot
  handle-opened e = ap (λ granted. answered (opened granted)) e

finish-Outcome :
    (l : Listener) (b : Budgets) (r : Request) (upgrade : Option Bytes) (x e : Event)
    (es : List Event)
    → x ∷ (finish_upgrade l b r upgrade).2 ≡ es ++ e ∷ []
    → Outcome l r upgrade (finish_upgrade l b r upgrade).1 e
unfolding finish_upgrade
finish-Outcome l b r none x e es h =
    subst (Outcome l r none upgraded) (last_of_two x _ e es h) (was_upgraded refl)
finish-Outcome l b r (some error) x e es h =
    subst (Outcome l r (some error) (status internal_server_error)) (last_of_two x _ e es h)
      (was_refused error refl)

pub handle-Outcome :
    (l : Listener) (b : Budgets) (r : Request) (seen now : ℕ) (upgrade : Option Bytes)
    (es : List Event) (e : Event)
    → (handle l b r seen now upgrade).2 ≡ es ++ e ∷ []
    → Outcome l r upgrade (handle l b r seen now upgrade).1 e
handle-Outcome l b r seen now upgrade es e h =
    elim (Bool-cases (acquire_probe b (address_of r.remote) l.probe seen now).1) [
      | inl slot ↦
          let same = handle-opened l b r seen now upgrade slot in
          rw same (finish-Outcome l _ r upgrade _ e es (rw same at h))
      | inr no_slot ↦
          let same = handle-opened l b r seen now upgrade no_slot in
          rw same (
            subst (Outcome l r upgrade (status service_unavailable))
              (last_of_two _ _ e es (rw same at h)) (was_declined _))
    ]
