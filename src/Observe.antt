-- ===== src/Observe.antt =====
-- observe.go: the file in which a listener writes down what it saw, which legacy/observe.go repeats,
-- and the reader of all such files that the page asks.
-- The JSON of a line is an interface: its text belongs to encoding/json. Times are nanoseconds since
-- the epoch. A file that is not there has no bytes. What the file system does with a call is an
-- argument. `watch` is set before any listener starts, so the receiver is never nil.
pub mod Lines
pub mod Sorting
pub mod Reading
pub mod Rolling
pub mod Faithful
use semantic_echo.Base.{
  ℕ, ◌+◌, ◌-◌, ◌*◌, ◌^◌, ◌≡◌, ◌≢◌, Bool, true, false, not, ◌&&◌, ◌||◌, List, [], ◌∷◌, ◌++◌, Option,
  none, some, map, if◌then◌else◌, ltb, length, take, All,
}
use semantic_echo.Base.Text.{Bytes, bytes_eq}
use semantic_echo.Base.Word.{add64, lt64}
use semantic_echo.Strings.{split}

abbrev pub newline : ℕ
newline = 10

pub record Observation : Type 0 where
  pub at : ℕ
  pub addr : Bytes
  pub port : ℕ
  pub kind : Bytes
  pub detail : Bytes

-- What the page is handed.
pub record ObservedEvent : Type 0 where
  pub at : ℕ
  pub port : ℕ
  pub kind : Bytes
  pub detail : Bytes

-- `json.Marshal` and `json.Unmarshal` for observations. What they promise holds for observations
-- that JSON can carry: texts of valid UTF-8, and a time whose year has at most four digits.
pub record Json : Type 1 where
  pub marshal : Observation → Option Bytes
  pub unmarshal : Bytes → Option Observation
  pub IsJson : Observation → Type 0
  pub line_of :
      (o : Observation)
      → IsJson o
      → (line : Bytes) × (marshal o ≡ some line)
        × (unmarshal line ≡ some o)
        × All (λ x. x ≢ newline) line
  pub unmarshal-nil : unmarshal [] ≡ none

abbrev pub observation_ceiling : ℕ
observation_ceiling = 2 ^ 20

-- An observer, and the bytes of the file at its path.
pub record Observer : Type 0 where
  pub content : Bytes
  pub size : ℕ

-- What the file system does with one call of `record`: whether `Remove` and `OpenFile` succeed, and
-- if `Write` fails, how many bytes it had written.
pub record Disk : Type 0 where
  pub removes : Bool
  pub opens : Bool
  pub breaks : Option ℕ

unfoldable pub new_observer : Bytes → Bool → Observer
new_observer left_over removes = record { content = if removes then [] else left_over; size = 0 }

-- The part of `record` under its mutex, for a line with its newline.
unfoldable pub write_line : Observer → Disk → Bytes → Observer
write_line o disk line =
    let full = lt64 observation_ceiling (add64 o.size (length line)) in
    let content = if full && disk.removes then [] else o.content in
    let size = if full then 0 else o.size in
    if not disk.opens then record { content = content; size = size } else elim disk.breaks [
      | some k ↦ record { content = content ++ take k line; size = size }
      | none ↦ record { content = content ++ line; size = add64 size (length line) }
    ]

module _ (json : Json) where
  -- `record`
  unfoldable pub record_observation : Observer → Disk → Observation → Observer
  record_observation o disk seen = elim (json.marshal seen) [
    | none ↦ o
    | some line ↦ write_line o disk (line ++ newline ∷ [])
  ]

  -- What the loop of `readObservations` keeps of one line.
  unfoldable pub keep_line : Bytes → ℕ → Bytes → List Observation
  keep_line address cutoff [] = []
  keep_line address cutoff (c ∷ line) = elim (json.unmarshal (c ∷ line)) [
    | none ↦ []
    | some event ↦
        if not (bytes_eq event.addr address) || ltb event.at cutoff then [] else event ∷ []
  ]

  unfoldable pub keep_lines : Bytes → ℕ → List Bytes → List Observation
  keep_lines address cutoff [] = []
  keep_lines address cutoff (line ∷ lines) =
      keep_line address cutoff line ++ keep_lines address cutoff lines

  -- The files in the order of `Glob`; none for a file that cannot be read.
  unfoldable pub keep_files : Bytes → ℕ → List (Option Bytes) → List Observation
  keep_files address cutoff [] = []
  keep_files address cutoff (none ∷ files) = keep_files address cutoff files
  keep_files address cutoff (some content ∷ files) =
      keep_lines address cutoff (split newline content) ++ keep_files address cutoff files

-- `sort.Slice` by time. Go leaves the order of equal times open; here they stay as they stand.
unfoldable pub insert_event : Observation → List Observation → List Observation
insert_event e [] = e ∷ []
insert_event e (x ∷ xs) =
    let later = insert_event e xs in if ltb x.at e.at then x ∷ later else e ∷ x ∷ xs

unfoldable pub sort_events : List Observation → List Observation
sort_events [] = []
sort_events (e ∷ es) = insert_event e (sort_events es)

abbrev pub observed : Observation → ObservedEvent
observed e = record { at = e.at; port = e.port; kind = e.kind; detail = e.detail }

unfoldable pub read_observations : Json → List (Option Bytes) → Bytes → ℕ → ℕ → List ObservedEvent
read_observations json files address window now =
    map observed (sort_events (keep_files json address (now - window) files))
