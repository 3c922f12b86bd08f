-- ===== src/Watch.antt =====
-- `watch.record` in the handlers of main.go and legacy/main.go: what an event of a listener becomes in
-- the file of its observer, and the page server of main.go that reads the files back.
pub mod Outcomes
pub mod Seen
pub mod Told
use semantic_echo.Base.{ℕ, ◌*◌, List, [], ◌∷◌, Option}
use semantic_echo.Base.Text.{Bytes, codes}
use semantic_echo.Endpoint.{Kind, quic, connect, session, refused, declined, closed, Event}
use semantic_echo.Observe.{
  Observation, ObservedEvent, Json, Observer, Disk, record_observation, read_observations,
}
use semantic_echo.Pages.{Site, PageRequest}

-- kindQUIC to kindClosed
abbrev pub kind_text : Kind → Bytes
kind_text quic = codes "quic"
kind_text connect = codes "connect"
kind_text session = codes "session"
kind_text refused = codes "refused"
kind_text declined = codes "declined"
kind_text closed = codes "closed"

-- The observation that `record` makes of its arguments at a reading of the clock.
abbrev pub observation_of : ℕ → Event → Observation
observation_of now e = record {
  at = now;
  addr = e.address;
  port = e.port;
  kind = kind_text e.kind;
  detail = e.detail;
}

abbrev pub watch_record : Json → Observer → Disk → ℕ → Event → Observer
watch_record json o disk now e = record_observation json o disk (observation_of now e)

-- `30*time.Second`
abbrev pub observed_window : ℕ
observed_window = 30 * 1_000_000_000

-- The page server over the files that it finds at these paths, at a reading of the clock.
abbrev pub reading_files : Json → Site → List Bytes → ℕ → Site
reading_files json site paths now = record site {
  observed_paths = paths;
  read_observations = λ files address. read_observations json files address observed_window now;
}

abbrev pub asks_observed : PageRequest → PageRequest
asks_observed r = record r { path = codes "/observed" }
