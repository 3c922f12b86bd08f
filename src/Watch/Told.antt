-- ===== src/Watch/Told.antt =====
-- What the page shows of a process, against what its clients did.
use semantic_echo.Base.{
  ℕ, ◌+◌, ◌-◌, ◌≤◌, ◌≡◌, refl, ap, ◌∙◌, List, [], ◌∷◌, ◌++◌, Option, some, map, if◌then◌else◌, ltb,
  arith, sum_of, All, Bool-cases, inl, inr, append-nil,
}
use semantic_echo.Base.Text.{Bytes, bytes_eq}
use semantic_echo.Endpoint.{Kind, quic, connect, session, refused, declined, closed, Event}
use semantic_echo.Client.{client_address}
use semantic_echo.Observe.{
  Observation, ObservedEvent, Json, Disk, insert_event, sort_events, observed,
}
use semantic_echo.Observe.Faithful.{those, seen_in, files_of, Fits, read_observations-those}
use semantic_echo.Pages.{Site, PageRequest, serve_page}
use semantic_echo.Server.{Server, Reach}
use semantic_echo.Server.Events.{same_kind, observed_as, open_from, waits, started, log_accounts}
use semantic_echo.Watch.{kind_text, observation_of, observed_window, reading_files, asks_observed}
use semantic_echo.Observe.{read_observations}
use semantic_echo.Watch.Seen.{observed_answer, serve_page_observed}

-- One call of `watch.record`: what the disk does, the reading of the clock, the event.
pub record Call : Type 0 where
  pub disk : Disk
  pub at : ℕ
  pub event : Event

abbrev pub calls_of : List Call → List (Disk × Observation)
calls_of = map (λ (x : Call). (x.disk, observation_of x.at x.event))

abbrev pub events_of : List Call → List Event
events_of = map (λ (x : Call). x.event)

-- The rows of one kind.
abbrev row : Kind → Bytes → ℕ
row k kind = if bytes_eq kind (kind_text k) then 1 else 0

abbrev pub shown_as : Kind → List ObservedEvent → ℕ
shown_as k = sum_of (λ (e : ObservedEvent). row k e.kind)

kind_text_same : (k j : Kind) → bytes_eq (kind_text j) (kind_text k) ≡ same_kind k j
unfolding bytes_eq
kind_text_same k j = ground arith

sum_of-insert_event :
    (w : Observation → ℕ) (e : Observation) (xs : List Observation)
    → sum_of w (insert_event e xs) ≡ w e + sum_of w xs
unfolding insert_event
sum_of-insert_event w e [] = refl
sum_of-insert_event w e (x ∷ xs) = elim (Bool-cases (ltb x.at e.at)) [
  | inl later ↦ rw later (omega (arith, sum_of-insert_event w e xs))
  | inr here ↦ rw here refl
]

sum_of-sort_events :
    (w : Observation → ℕ) (xs : List Observation) → sum_of w (sort_events xs) ≡ sum_of w xs
unfolding sort_events
sum_of-sort_events w [] = refl
sum_of-sort_events w (x ∷ xs) =
    sum_of-insert_event w x (sort_events xs) ∙ ap (◌+◌ (w x)) (sum_of-sort_events w xs)

shown_as-observed :
    (k : Kind) (xs : List Observation)
    → shown_as k (map observed xs) ≡ sum_of (λ (e : Observation). row k e.kind) xs
shown_as-observed k [] = refl
shown_as-observed k (x ∷ xs) = ap (◌+◌ (row k x.kind)) (shown_as-observed k xs)

those-told :
    (k : Kind) (a : Bytes) (since : ℕ) (cs : List Call)
    → All (λ (x : Call). since ≤ x.at) cs
    → sum_of (λ (e : Observation). row k e.kind) (those a since (seen_in (calls_of cs)))
      ≡ observed_as k a (events_of cs)
those-told k a since [] r = refl
those-told k a since (x ∷ cs) (r, rs) =
    let rest = those-told k a since cs rs in
    let same = kind_text_same k x.event.kind in ground (arith, rest, same, r)

module _ (json : Json) (left_over : Bytes) (cs : List Call) (a : Bytes) (asked : ℕ)
    (whole : Fits json (left_over, calls_of cs))
    (recent : All (λ (x : Call). asked - observed_window ≤ x.at) cs) where
  abbrev files : List (Option Bytes)
  files = files_of json ((left_over, calls_of cs) ∷ [])

  shown_as-read_observations :
      (k : Kind)
      → shown_as k (read_observations json files a observed_window asked)
        ≡ observed_as k a (events_of cs)
  shown_as-read_observations k =
      let es = seen_in (calls_of cs) ++ [] in
      let since = asked - observed_window in
      ap (shown_as k) (
        read_observations-those json ((left_over, calls_of cs) ∷ []) a observed_window asked
          (whole, tt))
      ∙ shown_as-observed k (sort_events (those a since es))
      ∙ sum_of-sort_events (λ (e : Observation). row k e.kind) (those a since es)
      ∙ ap
          (λ (xs : List Observation). sum_of (λ (e : Observation). row k e.kind) (those a since xs))
          (append-nil (seen_in (calls_of cs)))
      ∙ those-told k a since cs recent

-- What the page shows of an address is what it did: if every event of a process was written down by
-- a call that succeeded, in the order of its log and inside the window, the lines fit below the
-- ceiling, and its file is the only one that the page server reads, then "/observed" answers with rows that account for the
-- connections, requests and sessions of the address that asks: as many connections are shown as made
-- as are shown as closed or are open, as many requests as are shown as declined, refused or served or
-- are being upgraded, and as many sessions as were started.
pub serve_page_told :
    (json : Json) (left_over : Bytes) (cs : List Call) (site : Site) (page : PageRequest)
    (paths : List Bytes) (asked boot : ℕ) (s : Server)
    → Reach boot s
    → map site.read_file paths ≡ files_of json ((left_over, calls_of cs) ∷ [])
    → events_of cs ≡ s.events
    → Fits json (left_over, calls_of cs)
    → All (λ (x : Call). asked - observed_window ≤ x.at) cs
    → let a = client_address page.client in
      (shown : List ObservedEvent) × (serve_page
          (reading_files json site paths asked)
          (asks_observed page)
        ≡ some (observed_answer a shown))
      × (shown_as quic shown ≡ shown_as closed shown + open_from a s.connections)
      × (shown_as connect shown
          ≡ shown_as declined shown
            + shown_as refused shown
            + shown_as session shown
            + sum_of (waits a) s.visits)
      × (shown_as session shown ≡ sum_of (started a) s.visits)
serve_page_told json left_over cs site page paths asked boot s r read log whole recent =
    let a = client_address page.client in
    let files = map site.read_file paths in
    let (connections, requests, sessions) = log_accounts boot s a r in
    let shown : (k : Kind)
        → shown_as k (read_observations json files a observed_window asked)
          ≡ observed_as k a s.events =
      λ k.
        ap
          (λ (fs : List (Option Bytes)).
            shown_as k (read_observations json fs a observed_window asked))
          read
        ∙ shown_as-read_observations json left_over cs a asked whole recent k
        ∙ ap (observed_as k a) log in
    (
      _,
      serve_page_observed (reading_files json site paths asked) page,
      omega (arith, connections, shown quic, shown closed),
      omega (arith, requests, shown connect, shown declined, shown refused, shown session),
      omega (arith, sessions, shown session),
    )
