-- ===== src/Watch/Seen.antt =====
-- The way of an event from the handler of "/echo" through the observer's file to the page's
-- "/observed".
use semantic_echo.Base.{map, ℕ, ◌≡◌, refl, true, List, [], ◌∷◌, ◌++◌, Option, some, ◌⊎◌}
use semantic_echo.Base.Text.{Bytes, codes, bytes_eq}
use semantic_echo.Strings.{has_prefix}
use semantic_echo.Net.{colon}
use semantic_echo.Net.Dotted.{mapped}
use semantic_echo.Budgets.{Budgets}
use semantic_echo.Endpoint
use semantic_echo.Endpoint.{Event}
use semantic_echo.Client.{client_address}
use semantic_echo.Observe.{Observation, ObservedEvent, Json, Disk, new_observer}
use semantic_echo.Observe.Rolling.{record_all}
use semantic_echo.Pages.{
  Site, PageRequest, Response, answer, observations, content_type, serve_page,
}
use semantic_echo.Watch.{watch_record, asks_observed}

-- The page's answer to "/observed".
abbrev pub observed_answer : Bytes → List ObservedEvent → Response
observed_answer address events =
    answer (observations address events)
      (content_type (codes "application/json") ∷ (codes "Cache-Control", codes "no-store") ∷ [])

pub serve_page_observed :
    (site : Site) (r : PageRequest)
    → serve_page site (asks_observed r)
      ≡ some (
          observed_answer (client_address r.client) (
            site.read_observations
              (map site.read_file site.observed_paths)
              (client_address r.client)))
unfolding serve_page bytes_eq has_prefix
serve_page_observed site r = refl

-- The remote UDP address of a client of IPv4, as a socket of IPv4 or of both families writes it.
abbrev pub ComesFrom : Bytes → Bytes → Bytes → Type 0
ComesFrom remote text udp =
    (remote ≡ text ++ colon ∷ udp) ⊎ (remote ≡ b'[' ∷ (mapped text ++ b']' ∷ colon ∷ udp))

-- The file of a listener that booted, wrote down a history and then the event.
abbrev pub file_with : Json → Bytes → List (Disk × Observation) → Disk → ℕ → Event → Option Bytes
file_with json left_over h disk written e =
    some
      (watch_record json (record_all json (new_observer left_over true) h) disk written e).content
