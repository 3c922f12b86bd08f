-- ===== src/Observe/Sorting.antt =====
-- `sort.Slice` of readObservations: what is sorted is the same, oldest first.
use semantic_echo.Base.{
  ℕ, ◌≤◌, ◌≡◌, refl, List, [], ◌∷◌, map, ltb, arith, ◌⊎◌, inl, inr, All, Bool-cases,
}
use mathlib.Core.List.{Memᴰ}
use mathlib.Core.List.Memᴰ
use semantic_echo.Observe.{Observation, ObservedEvent, insert_event, sort_events, observed}

-- Oldest first.
abbrev pub IsSorted : List ObservedEvent → Type 0
IsSorted [] = Unit
IsSorted (e ∷ es) = All (λ (x : ObservedEvent). e.at ≤ x.at) es × IsSorted es

later-All :
    (j k : ℕ) (es : List Observation)
    → j ≤ k
    → All (λ (x : ObservedEvent). k ≤ x.at) (map observed es)
    → All (λ (x : ObservedEvent). j ≤ x.at) (map observed es)
later-All j k [] h a = tt
later-All j k (e ∷ es) h (a, rest) = (omega arith, later-All j k es h rest)

insert_event-All :
    (k : ℕ) (e : Observation) (es : List Observation)
    → k ≤ e.at
    → All (λ (x : ObservedEvent). k ≤ x.at) (map observed es)
    → All (λ (x : ObservedEvent). k ≤ x.at) (map observed (insert_event e es))
unfolding insert_event
insert_event-All k e [] h a = (h, tt)
insert_event-All k e (x ∷ xs) h (a, rest) = elim (Bool-cases (ltb x.at e.at)) [
  | inl behind ↦ rw behind (a, insert_event-All k e xs h rest)
  | inr front ↦ rw front (h, (a, rest))
]

insert_event-IsSorted :
    (e : Observation) (es : List Observation)
    → IsSorted (map observed es)
    → IsSorted (map observed (insert_event e es))
unfolding insert_event
insert_event-IsSorted e [] h = (tt, tt)
insert_event-IsSorted e (x ∷ xs) (h, hs) = elim (Bool-cases (ltb x.at e.at)) [
  | inl behind ↦
      rw behind (insert_event-All x.at e xs (ground arith) h, insert_event-IsSorted e xs hs)
  | inr front ↦
      let first : e.at ≤ x.at = ground arith in
      rw front ((first, later-All e.at x.at xs first h), (h, hs))
]

pub sort_events-IsSorted : (es : List Observation) → IsSorted (map observed (sort_events es))
unfolding sort_events
sort_events-IsSorted [] = tt
sort_events-IsSorted (e ∷ es) = insert_event-IsSorted e (sort_events es) (sort_events-IsSorted es)

insert_event-head : (e : Observation) (es : List Observation) → Memᴰ e (insert_event e es)
unfolding insert_event
insert_event-head e [] = Memᴰ.head refl
insert_event-head e (x ∷ xs) = elim (Bool-cases (ltb x.at e.at)) [
  | inl behind ↦ rw behind (Memᴰ.tail (insert_event-head e xs))
  | inr front ↦ rw front (Memᴰ.head refl)
]

insert_event-tail :
    {a : Observation} (e : Observation) (es : List Observation)
    → Memᴰ a es
    → Memᴰ a (insert_event e es)
unfolding insert_event
insert_event-tail e [] m = elim m [ ]
insert_event-tail e (x ∷ xs) m = elim (Bool-cases (ltb x.at e.at)) [
  | inl behind ↦ rw behind (elim (Memᴰ.cases_cons m) [
    | inl first ↦ Memᴰ.head first
    | inr rest ↦ Memᴰ.tail (insert_event-tail e xs rest)
  ])
  | inr front ↦ rw front (Memᴰ.tail m)
]

insert_event-cases :
    {a : Observation} (e : Observation) (es : List Observation)
    → Memᴰ a (insert_event e es)
    → (a ≡ e) ⊎ Memᴰ a es
unfolding insert_event
insert_event-cases e [] m = Memᴰ.cases_cons m
insert_event-cases e (x ∷ xs) m = elim (Bool-cases (ltb x.at e.at)) [
  | inl behind ↦ elim (Memᴰ.cases_cons (rw behind at m)) [
    | inl first ↦ inr (Memᴰ.head first)
    | inr rest ↦ elim (insert_event-cases e xs rest) [
      | inl here ↦ inl here
      | inr there ↦ inr (Memᴰ.tail there)
    ]
  ]
  | inr front ↦ Memᴰ.cases_cons (rw front at m)
]

pub sort_events-mem :
    {a : Observation} (es : List Observation) → Memᴰ a es → Memᴰ a (sort_events es)
unfolding sort_events
sort_events-mem [] m = m
sort_events-mem (e ∷ es) m = elim (Memᴰ.cases_cons m) [
  | inl first ↦ Memᴰ.cast first (insert_event-head e (sort_events es))
  | inr rest ↦ insert_event-tail e (sort_events es) (sort_events-mem es rest)
]

pub mem-sort_events :
    {a : Observation} (es : List Observation) → Memᴰ a (sort_events es) → Memᴰ a es
unfolding sort_events
mem-sort_events [] m = m
mem-sort_events (e ∷ es) m = elim (insert_event-cases e (sort_events es) m) [
  | inl first ↦ Memᴰ.head first
  | inr rest ↦ Memᴰ.tail (mem-sort_events es rest)
]
