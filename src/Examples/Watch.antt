-- ===== src/Examples/Watch.antt =====
-- One visit of a client, from its handler to the page, with a codec that carries the time and port of
-- a session's observation.
use semantic_echo.Base.{
  ℕ, ◌+◌, ◌-◌, ◌≡◌, refl, sym, ap, List, [], ◌∷◌, ◌++◌, Option, none, some, arith,
}
use semantic_echo.Base.Text.{Bytes, codes}
use semantic_echo.Net.{colon}
use semantic_echo.Net.Print.{print_v4}
use semantic_echo.Net.Dotted.{quad}
use semantic_echo.Endpoint.{Event, Request, session, observe}
use semantic_echo.Observe.{Observation, Json}
use semantic_echo.Pages.{Site, PageRequest}
use semantic_echo.Examples.Address.{udp}
use semantic_echo.Examples.Observe.{works}
use semantic_echo.Examples.Server.{port}
use semantic_echo.Examples.Pages.{proxied, site}
use semantic_echo.Watch.{observation_of}
use semantic_echo.Watch.Seen.{file_with}

abbrev visit : Request
visit = record { remote = print_v4 (quad 10 0 0 7) ++ colon ∷ udp; origin = [] }

abbrev began : Event
began = observe port visit session []

abbrev began_at : ℕ → ℕ → Observation
began_at t p = record (observation_of t began) { port = p }

abbrev decode : Bytes → Option Observation
decode (t ∷ p ∷ []) = some (began_at (t - 11) (p - 11))
decode _ = none

behind : (n : ℕ) → n + 11 - 11 ≡ n
behind n = omega arith

abbrev codec : Json
codec = record {
  marshal = λ o. some ((o.at + 11) ∷ (o.port + 11) ∷ []);
  unmarshal = decode;
  IsJson = λ o. o ≡ began_at o.at o.port;
  line_of = λ o e. (
    (o.at + 11) ∷ (o.port + 11) ∷ [],
    refl,
    ap some (rw (behind o.at, behind o.port) (sym e)),
    (omega arith, (omega arith, tt)),
  );
  unmarshal-nil = refl;
}

abbrev page : PageRequest
page = record { path = codes "/"; basic_auth = none; v = []; client = proxied }

-- One file that cannot be read, and the file of the visit.
abbrev reads_visit : Site
reads_visit = record site {
  read_file = λ path. elim path [ [] ↦ none | _ ∷ _ ↦ file_with codec [] [] works 5 began ];
}
