-- ===== src/Observe/Reading.antt =====
-- `readObservations` of observe.go: which lines of the files it returns, and in which order.
use semantic_echo.Base.{
  ℕ, ◌-◌, ◌≤◌, ◌≡◌, ◌≢◌, refl, sym, ap, ◌∙◌, true, not, ◌||◌, List, [], ◌∷◌, Option, none, some,
  ltb, arith, inl, inr, Bool-cases, Option-cases,
}
use mathlib.Core.List.{Memᴰ}
use mathlib.Core.List.Memᴰ
use semantic_echo.Base.Text.{Bytes, bytes_eq, bytes_eq_iff}
use semantic_echo.Strings.{split}
use semantic_echo.Observe.{
  newline, Observation, ObservedEvent, Json, keep_line, keep_lines, keep_files, sort_events,
  observed, read_observations,
}
use semantic_echo.Observe.Sorting.{IsSorted, sort_events-IsSorted, sort_events-mem, mem-sort_events}

-- A line of the file that is kept, and what is returned of it.
pub record Kept (json : Json) (address : Bytes) (cutoff : ℕ) (files : List (Option Bytes))
    (e : Observation) : Type 0 where
  pub content : Bytes
  pub line : Bytes
  pub file : Memᴰ (some content) files
  pub written : Memᴰ line (split newline content)
  pub nonempty : line ≢ []
  pub read : json.unmarshal line ≡ some e
  pub address_is : e.addr ≡ address
  pub recent : cutoff ≤ e.at

module _ (json : Json) (address : Bytes) (cutoff : ℕ) where
  keep_line-mem :
      {e : Observation} (line : Bytes)
      → line ≢ []
      → json.unmarshal line ≡ some e
      → e.addr ≡ address
      → cutoff ≤ e.at
      → keep_line json address cutoff line ≡ e ∷ []
  unfolding keep_line
  keep_line-mem [] n r a t = absurd (n refl)
  keep_line-mem {e} (c ∷ line) n r a t =
      let same : bytes_eq e.addr address ≡ true = (bytes_eq_iff e.addr address).1 a in ground arith

  keep_lines-mem :
      {e : Observation} (line : Bytes) (lines : List Bytes)
      → Memᴰ line lines
      → keep_line json address cutoff line ≡ e ∷ []
      → Memᴰ e (keep_lines json address cutoff lines)
  unfolding keep_lines
  keep_lines-mem line [] m k = elim m [ ]
  keep_lines-mem line (l ∷ lines) m k = elim (Memᴰ.cases_cons m) [
    | inl here ↦
        Memᴰ.append_left (keep_lines json address cutoff lines) (rw (← here, k) (Memᴰ.head refl))
    | inr there ↦
        Memᴰ.append_right (keep_line json address cutoff l) (keep_lines-mem line lines there k)
  ]

  keep_files-mem :
      {e : Observation} (content : Bytes) (files : List (Option Bytes))
      → Memᴰ (some content) files
      → Memᴰ e (keep_lines json address cutoff (split newline content))
      → Memᴰ e (keep_files json address cutoff files)
  unfolding keep_files
  keep_files-mem content [] m k = elim m [ ]
  keep_files-mem content (none ∷ files) m k = elim (Memᴰ.cases_cons m) [
    | inl here ↦ absurd cc
    | inr there ↦ keep_files-mem content files there k
  ]
  keep_files-mem content (some c ∷ files) m k = elim (Memᴰ.cases_cons m) [
    | inl here ↦
        let same : content ≡ c = cc in
        Memᴰ.append_left (keep_files json address cutoff files) (rw same at k)
    | inr there ↦
        Memᴰ.append_right (keep_lines json address cutoff (split newline c))
          (keep_files-mem content files there k)
  ]

  -- What one line gives, and where it comes from.
  keep_line-cases :
      {e : Observation} (line : Bytes)
      → Memᴰ e (keep_line json address cutoff line)
      → (line ≢ []) × (json.unmarshal line ≡ some e) × (e.addr ≡ address) × (cutoff ≤ e.at)
  unfolding keep_line
  keep_line-cases [] m = elim m [ ]
  keep_line-cases {e} (c ∷ line) m = elim (Option-cases (json.unmarshal (c ∷ line))) [
    | inl none_read ↦ elim (rw (none_read, keep_line) at m) [ ]
    | inr (x, read) ↦ elim (Bool-cases (not (bytes_eq x.addr address) || ltb x.at cutoff)) [
      | inl dropped ↦ elim (rw (read, dropped, keep_line) at m) [ ]
      | inr stays ↦
          let same : e ≡ x = Memᴰ.eq_of_singleton (rw (read, stays, keep_line) at m) in
          let (near, late) : (x.addr ≡ address) × (cutoff ≤ x.at) =
            (ground (arith, bytes_eq_iff x.addr address), ground arith) in
          (λ e'. ground arith, read ∙ ap some (sym same), rw same near, rw same late)
    ]
  ]

  keep_lines-cases :
      {e : Observation} (lines : List Bytes)
      → Memᴰ e (keep_lines json address cutoff lines)
      → (line : Bytes) × Memᴰ line lines × Memᴰ e (keep_line json address cutoff line)
  unfolding keep_lines
  keep_lines-cases [] m = elim m [ ]
  keep_lines-cases (l ∷ lines) m = elim (Memᴰ.append_cases (keep_line json address cutoff l) m) [
    | inl here ↦ (l, Memᴰ.head refl, here)
    | inr there ↦ let (line, at, k) = keep_lines-cases lines there in (line, Memᴰ.tail at, k)
  ]

  keep_files-cases :
      {e : Observation} (files : List (Option Bytes))
      → Memᴰ e (keep_files json address cutoff files)
      → (content : Bytes) × Memᴰ (some content) files
        × Memᴰ e (keep_lines json address cutoff (split newline content))
  unfolding keep_files
  keep_files-cases [] m = elim m [ ]
  keep_files-cases (none ∷ files) m =
      let (content, at, k) = keep_files-cases files m in (content, Memᴰ.tail at, k)
  keep_files-cases (some c ∷ files) m =
      elim (Memᴰ.append_cases (keep_lines json address cutoff (split newline c)) m) [
        | inl here ↦ (c, Memᴰ.head refl, here)
        | inr there ↦
            let (content, at, k) = keep_files-cases files there in (content, Memᴰ.tail at, k)
      ]

  keep_files-Kept :
      {e : Observation} (files : List (Option Bytes))
      → Memᴰ e (keep_files json address cutoff files)
      → Kept json address cutoff files e
  keep_files-Kept files m =
      let (content, file, k) = keep_files-cases files m in
      let (line, written, one) = keep_lines-cases (split newline content) k in
      let (nonempty, read, address_is, recent) = keep_line-cases line one in
      record {
        content = content;
        line = line;
        file = file;
        written = written;
        nonempty = nonempty;
        read = read;
        address_is = address_is;
        recent = recent;
      }

  Kept-keep_files :
      {e : Observation} (files : List (Option Bytes))
      → Kept json address cutoff files e
      → Memᴰ e (keep_files json address cutoff files)
  Kept-keep_files files k = keep_files-mem k.content files k.file (
      keep_lines-mem k.line (split newline k.content) k.written
        (keep_line-mem k.line k.nonempty k.read k.address_is k.recent))

-- What the page gets is oldest first, and it is exactly what the files say: an event is returned if
-- and only if some readable file has a line which is not empty, reads as JSON, is about the address
-- that asks and is not older than the window.
pub read_observations-Kept :
    (json : Json) (files : List (Option Bytes)) (address : Bytes) (window now : ℕ)
    → IsSorted (read_observations json files address window now)
      × ((x : ObservedEvent)
          → (Memᴰ x (read_observations json files address window now)
              → (e : Observation) × (observed e ≡ x) × Kept json address (now - window) files e)
            × ((e : Observation)
                → observed e ≡ x
                → Kept json address (now - window) files e
                → Memᴰ x (read_observations json files address window now)))
unfolding read_observations
read_observations-Kept json files address window now =
    let found = keep_files json address (now - window) files in
    (
      sort_events-IsSorted found,
      λ x. (
        λ m.
            let (e, at, same) = Memᴰ.of_map observed (sort_events found) m in
            (e, same, keep_files-Kept json address (now - window) files (mem-sort_events found at)),
        λ e same k.
            let at = Kept-keep_files json address (now - window) files k in
            Memᴰ.cast (sym same) (Memᴰ.map observed (sort_events-mem found at)),
      ),
    )
