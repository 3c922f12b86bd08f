-- ===== src/Observe/Rolling.antt =====
-- The file of one observer of observe.go, over a history of calls of `record`.
use semantic_echo.Base.{
  ◌≤◌, ◌<◌, ◌≡◌, refl, sym, true, ◌&&◌, List, [], ◌∷◌, ◌++◌, none, some, if◌then◌else◌, length,
  arith, ◌⊎◌, inl, inr, All, append-nil, Option-cases, length-append,
}
use mathlib.Core.List.{Memᴰ}
use mathlib.Core.List.Memᴰ
use semantic_echo.Base.Text.{Bytes}
use semantic_echo.Base.Word.{add64, lt64, add64_exact, lt64_exact}
use semantic_echo.Observe.{
  newline, observation_ceiling, Observation, Json, Observer, Disk, new_observer, write_line,
  record_observation,
}

-- A write that fails leaves nothing of its line.
abbrev pub IsClean : Disk → Type 0
IsClean disk = (disk.breaks ≡ none) ⊎ (disk.breaks ≡ some 0)

-- What the file holds before the line: all of it, or nothing.
abbrev kept : Observer → Disk → Bytes → Bytes
kept o disk line =
    if lt64 observation_ceiling (add64 o.size (length line)) && disk.removes then [] else o.content

-- Whole lines, counted, below the ceiling.
record IsLog (o : Observer) : Type 0 where
  counted : length o.content ≡ o.size
  bounded : o.size ≤ observation_ceiling

write_line-IsLog :
    (o : Observer) (disk : Disk) (line : Bytes)
    → IsLog o
    → IsClean disk
    → disk.removes ≡ true
    → length line ≤ observation_ceiling
    → IsLog (write_line o disk line)
unfolding write_line
write_line-IsLog o disk line v (inl e) r short = record {
  counted = ground (
    arith,
    v.counted,
    v.bounded,
    length-append o.content line,
    add64_exact o.size (length line),
    add64_exact 0 (length line),
    lt64_exact observation_ceiling (add64 o.size (length line)),
  );
  bounded = ground (
    arith,
    v.bounded,
    add64_exact o.size (length line),
    add64_exact 0 (length line),
    lt64_exact observation_ceiling (add64 o.size (length line)),
  );
}
write_line-IsLog o disk line v (inr e) r short = record {
  counted = ground (arith, v.counted, append-nil o.content);
  bounded = ground (arith, v.bounded);
}

module _ (json : Json) where
  -- An observer behind a history of calls of `record`.
  unfoldable pub record_all : Observer → List (Disk × Observation) → Observer
  record_all o [] = o
  record_all o ((disk, seen) ∷ h) = record_all (record_observation json o disk seen) h

  record_observation-none :
      (o : Observer) (disk : Disk) (seen : Observation)
      → json.marshal seen ≡ none
      → record_observation json o disk seen ≡ o
  unfolding record_observation
  record_observation-none o disk seen e = rw (e, record_observation) refl

  pub record_observation-marshal :
      (o : Observer) (disk : Disk) (seen : Observation) (line : Bytes)
      → json.marshal seen ≡ some line
      → record_observation json o disk seen ≡ write_line o disk (line ++ newline ∷ [])
  unfolding record_observation
  record_observation-marshal o disk seen line e = rw (e, record_observation) refl

-- The line that an observation becomes fits the file with its newline.
abbrev pub IsShort : Json → Observation → Type 0
IsShort json seen =
    (line : Bytes) → json.marshal seen ≡ some line → length line < observation_ceiling

-- A call whose `Remove` succeeds and whose write is not cut short, for a line that fits.
abbrev pub IsFair : Json → Disk × Observation → Type 0
IsFair json (disk, seen) = IsClean disk × (disk.removes ≡ true) × IsShort json seen

record_all-IsLog :
    (json : Json) (o : Observer) (h : List (Disk × Observation))
    → IsLog o
    → All (IsFair json) h
    → IsLog (record_all json o h)
unfolding record_all
record_all-IsLog json o [] v f = v
record_all-IsLog json o ((disk, seen) ∷ h) v ((clean, removes, short), fair) =
    elim (Option-cases (json.marshal seen)) [
      | inl e ↦ rw (record_observation-none json o disk seen e) (record_all-IsLog json o h v fair)
      | inr (line, e) ↦
          let fits : length (line ++ newline ∷ []) ≤ observation_ceiling =
            omega (arith, short line e, length-append line (newline ∷ [])) in
          rw (record_observation-marshal json o disk seen line e) (
            record_all-IsLog json (write_line o disk (line ++ newline ∷ [])) h
              (write_line-IsLog o disk (line ++ newline ∷ []) v clean removes fits) fair)
    ]

-- The file rolls over below its ceiling: behind any history of calls from a new observer whose
-- removals succeed and of which no write is cut short, if each line fits, the file has at most
-- 2 ^ 20 bytes, and `size` is their number.
pub record_all-le-ceiling :
    (json : Json) (left_over : Bytes) (h : List (Disk × Observation))
    → All (IsFair json) h
    → let o = record_all json (new_observer left_over true) h in
      (length o.content ≤ observation_ceiling) × (o.size ≡ length o.content)
unfolding new_observer
record_all-le-ceiling json left_over h fair =
    let v =
      record_all-IsLog json (new_observer left_over true) h
        (record { counted = refl; bounded = omega arith }) fair in
    (omega (arith, v.counted, v.bounded), sym v.counted)
