-- ===== src/Observe/Faithful.antt =====
-- The files of the observers of observe.go as a whole, while none of them has rolled over.
use semantic_echo.Base.{
  ℕ, ◌+◌, ◌-◌, ◌≤◌, ◌≡◌, refl, sym, ap, ◌∙◌, true, not, ◌||◌, List, [], ◌∷◌, ◌++◌, Option, none,
  some, map, if◌then◌else◌, ltb, length, arith, inl, inr, All, Bool-cases, length-append,
  append-nil, append_assoc,
}
use semantic_echo.Base.Text.{Bytes, bytes_eq}
use semantic_echo.Base.Word.{add64, add64_exact, lt64_exact}
use semantic_echo.Strings.{split}
use semantic_echo.Observe.{
  newline, observation_ceiling, Observation, Json, Observer, Disk, new_observer, write_line,
  record_observation, keep_line, keep_lines, keep_files, sort_events, observed, read_observations,
}
use semantic_echo.Observe.Lines.{split_line_then}
use semantic_echo.Observe.Rolling.{record_all, record_observation-marshal}

-- What the page asks for: the observations of an address since an instant, in their order.
abbrev pub those : Bytes → ℕ → List Observation → List Observation
those address since [] = []
those address since (e ∷ es) =
    if not (bytes_eq e.addr address) || ltb e.at since
    then those address since es
    else e ∷ those address since es

those-append :
    (address : Bytes) (since : ℕ) (xs ys : List Observation)
    → those address since (xs ++ ys) ≡ those address since xs ++ those address since ys
those-append address since [] ys = refl
those-append address since (e ∷ xs) ys =
    elim (Bool-cases (not (bytes_eq e.addr address) || ltb e.at since)) [
      | inl other ↦ rw (other, those-append address since xs ys) refl
      | inr wanted ↦ rw (wanted, those-append address since xs ys) refl
    ]

-- A call of `record` that the disk carries out, for an observation that JSON can carry.
abbrev pub Succeeds : Json → Disk × Observation → Type 0
Succeeds json (disk, seen) = (disk.opens ≡ true) × (disk.breaks ≡ none) × json.IsJson seen

abbrev pub seen_in : List (Disk × Observation) → List Observation
seen_in = map (λ (p : Disk × Observation). p.1)

module _ (json : Json) where
  unfoldable pub text : Observation → Bytes
  text e = elim (json.marshal e) [ none ↦ [] | some line ↦ line ++ newline ∷ [] ]

  text-marshal :
      (e : Observation) (line : Bytes) → json.marshal e ≡ some line → text e ≡ line ++ newline ∷ []
  unfolding text
  text-marshal e line m = rw (m, text) refl

  -- The lines of a list of observations.
  abbrev pub texts : List Observation → Bytes
  texts [] = []
  texts (e ∷ es) = text e ++ texts es

  keep_line-unmarshal :
      (address : Bytes) (since : ℕ) (line : Bytes) (e : Observation) (more : List Observation)
      → json.unmarshal line ≡ some e
      → keep_line json address since line ++ more
        ≡ (if not (bytes_eq e.addr address) || ltb e.at since then more else e ∷ more)
  unfolding keep_line
  keep_line-unmarshal address since [] e more u = absurd (ground (arith, u, json.unmarshal-nil))
  keep_line-unmarshal address since (c ∷ line) e more u =
      elim (Bool-cases (not (bytes_eq e.addr address) || ltb e.at since)) [
        | inl other ↦ rw (u, other, keep_line) refl
        | inr wanted ↦ rw (u, wanted, keep_line) refl
      ]

  keep_lines-texts :
      (address : Bytes) (since : ℕ) (es : List Observation)
      → All json.IsJson es
      → keep_lines json address since (split newline (texts es)) ≡ those address since es
  unfolding keep_lines keep_line split
  keep_lines-texts address since [] j = refl
  keep_lines-texts address since (e ∷ es) (j, js) =
      let (line, m, u, n) = json.line_of e j in
      rw (text-marshal e line m, split_line_then line (texts es) n)
        (rw
          (
            keep_line-unmarshal address since line e
                (keep_lines json address since (split newline (texts es))) u,
            keep_lines-texts address since es js,
          )
          refl)

  -- A call that fits appends its line.
  record_observation_fits :
      (o : Observer) (disk : Disk) (e : Observation)
      → Succeeds json (disk, e)
      → o.size ≡ length o.content
      → length o.content + length (text e) ≤ observation_ceiling
      → ((record_observation json o disk e).content ≡ o.content ++ text e)
        × ((record_observation json o disk e).size
            ≡ length (record_observation json o disk e).content)
  unfolding write_line
  record_observation_fits o disk e (opens, whole, j) counted fits =
      let (line, m, u, n) = json.line_of e j in
      let t = text-marshal e line m in
      rw (record_observation-marshal json o disk e line m, t)
        (ground (
          arith,
          opens,
          whole,
          counted,
          fits,
          t,
          length-append o.content (line ++ newline ∷ []),
          add64_exact o.size (length (line ++ newline ∷ [])),
          lt64_exact observation_ceiling (add64 o.size (length (line ++ newline ∷ []))),
        ))

  record_all-texts :
      (o : Observer) (h : List (Disk × Observation))
      → All (Succeeds json) h
      → o.size ≡ length o.content
      → length o.content + length (texts (seen_in h)) ≤ observation_ceiling
      → (record_all json o h).content ≡ o.content ++ texts (seen_in h)
  unfolding record_all
  record_all-texts o [] s counted fits = sym (append-nil o.content)
  record_all-texts o ((disk, e) ∷ h) (s, ss) counted fits =
      let (grown, counted') =
        record_observation_fits o disk e s counted
          (omega (arith, length-append (text e) (texts (seen_in h)))) in
      record_all-texts (record_observation json o disk e) h ss counted' (
        omega (
          arith,
          ap length grown,
          length-append o.content (text e),
          length-append (text e) (texts (seen_in h)),
          fits,
        ))
      ∙ rw grown (append_assoc o.content (text e) (texts (seen_in h)))

  -- The file of an observer behind a history of calls since its start.
  abbrev pub file_of : Bytes → List (Disk × Observation) → Option Bytes
  file_of left_over h = some (record_all json (new_observer left_over true) h).content

  abbrev pub files_of : List (Bytes × List (Disk × Observation)) → List (Option Bytes)
  files_of = map (λ (p : Bytes × List (Disk × Observation)). file_of p.0 p.1)

  -- The observations of all histories, one file behind the other.
  abbrev pub all_of : List (Bytes × List (Disk × Observation)) → List Observation
  all_of [] = []
  all_of ((_, h) ∷ hs) = seen_in h ++ all_of hs

  -- Every call succeeded, and the lines fit below the ceiling.
  abbrev pub Fits : Bytes × List (Disk × Observation) → Type 0
  Fits (_, h) = All (Succeeds json) h × (length (texts (seen_in h)) ≤ observation_ceiling)

  seen-IsJson :
      (h : List (Disk × Observation)) → All (Succeeds json) h → All json.IsJson (seen_in h)
  seen-IsJson [] s = tt
  seen-IsJson ((disk, e) ∷ h) ((opens, whole, j), ss) = (j, seen-IsJson h ss)

  file_of-texts :
      (left_over : Bytes) (h : List (Disk × Observation))
      → Fits (left_over, h)
      → (record_all json (new_observer left_over true) h).content ≡ texts (seen_in h)
  unfolding new_observer
  file_of-texts left_over h (s, fits) =
      record_all-texts (new_observer left_over true) h s refl (omega (arith, fits))

  keep_files-those :
      (address : Bytes) (since : ℕ) (hs : List (Bytes × List (Disk × Observation)))
      → All Fits hs
      → keep_files json address since (files_of hs) ≡ those address since (all_of hs)
  unfolding keep_files
  keep_files-those address since [] f = refl
  keep_files-those address since ((left_over, h) ∷ hs) (f, fs) =
      rw
        (
          file_of-texts left_over h f,
          keep_lines-texts address since (seen_in h) (seen-IsJson h f.0),
          keep_files-those address since hs fs,
        )
        (sym (those-append address since (seen_in h) (all_of hs)))

  -- The files are a faithful log while none has rolled over: for any histories of the observers, of
  -- which every call succeeded and the lines fit below the ceiling, the page is answered with exactly
  -- the observations of its address in the window, each as often as it was written down, sorted.
  pub read_observations-those :
      (hs : List (Bytes × List (Disk × Observation))) (address : Bytes) (window now : ℕ)
      → All Fits hs
      → read_observations json (files_of hs) address window now
        ≡ map observed (sort_events (those address (now - window) (all_of hs)))
  unfolding read_observations
  read_observations-those hs address window now f =
      ap (λ es. map observed (sort_events es)) (keep_files-those address (now - window) hs f)
