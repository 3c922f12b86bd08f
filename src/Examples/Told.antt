-- ===== src/Examples/Told.antt =====
-- A process that served one request, and the page of its client, with a codec that carries the time,
-- the port and the length of the detail.
use semantic_echo.Base.{
  ℕ, ◌+◌, ◌-◌, ◌≡◌, refl, sym, ap, List, [], ◌∷◌, Option, none, some, length, arith, if◌then◌else◌,
  ◌==◌, sum_of,
}
use semantic_echo.Base.Text.{Bytes, codes}
use semantic_echo.Base.Word.{lt64}
use semantic_echo.Counts.{get}
use semantic_echo.Budgets.{admit, roll}
use semantic_echo.Address.{address_of}
use semantic_echo.Client.{client_address}
use semantic_echo.Endpoint.{
  quic, connect, session, refused, declined, closed, observe, session_cap, acquire_probe, open_slot,
  finish_upgrade,
}
use semantic_echo.Observe.{Observation, ObservedEvent, Json}
use semantic_echo.Observe.Faithful.{text, file_of, Fits}
use semantic_echo.Pages.{Site, serve_page}
use semantic_echo.Server.Events.{open_from, waits, started}
use semantic_echo.Examples.Observe.{works}
use semantic_echo.Examples.Server.{port, asking, serving, serving-Reach}
use semantic_echo.Examples.Pages.{intruder, site}
use semantic_echo.Watch.{kind_text, reading_files, asks_observed}
use semantic_echo.Watch.Seen.{observed_answer}
use semantic_echo.Watch.Told.{Call, calls_of, events_of, shown_as, serve_page_told}

-- A request that arrived, with a detail, or a session, without.
abbrev seen_at : ℕ → ℕ → ℕ → Observation
seen_at t p d = record {
  at = t;
  addr = address_of asking.remote;
  port = p;
  kind = if d == 0 then kind_text session else kind_text connect;
  detail = if d == 0 then [] else codes "origin=";
}

abbrev decode : Bytes → Option Observation
decode (t ∷ p ∷ d ∷ []) = some (seen_at (t - 11) (p - 11) (d - 11))
decode _ = none

behind : (n : ℕ) → n + 11 - 11 ≡ n
behind n = omega arith

abbrev triple : Json
triple = record {
  marshal = λ o. some ((o.at + 11) ∷ (o.port + 11) ∷ (length o.detail + 11) ∷ []);
  unmarshal = decode;
  IsJson = λ o. o ≡ seen_at o.at o.port (length o.detail);
  line_of = λ o e. (
    (o.at + 11) ∷ (o.port + 11) ∷ (length o.detail + 11) ∷ [],
    refl,
    ap some (rw (behind o.at, behind o.port, behind (length o.detail)) (sym e)),
    (omega arith, (omega arith, (omega arith, tt))),
  );
  unmarshal-nil = refl;
}

abbrev calls : List Call
calls =
    record { disk = works; at = 5; event = observe port asking connect (codes "origin=") }
    ∷ record { disk = works; at = 6; event = observe port asking session [] }
    ∷ []

calls-log : events_of calls ≡ serving.events
unfolding open_slot finish_upgrade acquire_probe session_cap admit roll get lt64
calls-log = refl

calls-Fits : Fits triple ([], calls_of calls)
unfolding text
calls-Fits = (((refl, refl, refl), ((refl, refl, refl), tt)), omega arith)

-- The page server finds the file at any path.
abbrev reads_calls : Site
reads_calls = record site { read_file = λ path. file_of triple [] (calls_of calls) }

serve_page_told_example :
    let a = client_address intruder.client in
    (shown : List ObservedEvent) × (serve_page
        (reading_files triple reads_calls (codes "f" ∷ []) 20)
        (asks_observed intruder)
      ≡ some (observed_answer a shown))
    × (shown_as quic shown ≡ shown_as closed shown + open_from a serving.connections)
    × (shown_as connect shown
        ≡ shown_as declined shown
          + shown_as refused shown
          + shown_as session shown
          + sum_of (waits a) serving.visits)
    × (shown_as session shown ≡ sum_of (started a) serving.visits)
serve_page_told_example =
    serve_page_told triple [] calls reads_calls intruder (codes "f" ∷ []) 20 0 serving serving-Reach
      refl calls-log calls-Fits (omega arith, (omega arith, tt))
