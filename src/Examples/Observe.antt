-- ===== src/Examples/Observe.antt =====
-- One observation, written down and found, with a codec that carries its time and port.
use semantic_echo.Base.{
  ℕ, ◌+◌, ◌-◌, ◌≤◌, ◌≡◌, refl, sym, ap, true, List, map, [], ◌∷◌, Option, none, some, length, arith,
  inl,
}
use mathlib.Core.List.{Memᴰ}
use semantic_echo.Base.Text.{Bytes, codes}
use semantic_echo.Observe.{
  Observation, ObservedEvent, Json, Disk, new_observer, record_observation, observation_ceiling,
  observed, sort_events, read_observations,
}
use semantic_echo.Observe.Sorting.{IsSorted}
use semantic_echo.Observe.Reading.{Kept, read_observations-Kept}
use semantic_echo.Observe.Faithful.{those, text, files_of, all_of, Fits, read_observations-those}
use semantic_echo.Observe.Rolling.{IsShort, record_all, record_all-le-ceiling}

abbrev connect_at : ℕ → ℕ → Observation
connect_at t port = record {
  at = t;
  addr = codes "10.0.0.7";
  port = port;
  kind = codes "connect";
  detail = [];
}

abbrev decode : Bytes → Option Observation
decode (t ∷ p ∷ []) = some (connect_at (t - 11) (p - 11))
decode _ = none

behind : (n : ℕ) → n + 11 - 11 ≡ n
behind n = omega arith

abbrev pair : Json
pair = record {
  marshal = λ o. some ((o.at + 11) ∷ (o.port + 11) ∷ []);
  unmarshal = decode;
  IsJson = λ o. o ≡ connect_at o.at o.port;
  line_of = λ o e. (
    (o.at + 11) ∷ (o.port + 11) ∷ [],
    refl,
    ap some (rw (behind o.at, behind o.port) (sym e)),
    (omega arith, (omega arith, tt)),
  );
  unmarshal-nil = refl;
}

abbrev pub works : Disk
works = record { removes = true; opens = true; breaks = none }

abbrev history : List (Disk × Observation)
history = (works, connect_at 5 4433) ∷ []

short : IsShort pair (connect_at 5 4433)
short line e = let same : 16 ∷ 4444 ∷ [] ≡ line = cc in rw (← same) (omega arith)

record_all-le-ceiling_example :
    (length (record_all pair (new_observer [] true) history).content ≤ observation_ceiling)
    × ((record_all pair (new_observer [] true) history).size
        ≡ length (record_all pair (new_observer [] true) history).content)
record_all-le-ceiling_example = record_all-le-ceiling pair [] history ((inl refl, refl, short), tt)

abbrev file : Bytes
file =
    (record_observation pair (record_all pair (new_observer [] true) history) works
      (connect_at 7 443)).content

read_observations-Kept_example :
    IsSorted (read_observations pair (some file ∷ []) (codes "10.0.0.7") 30 20)
    × ((x : ObservedEvent)
        → (Memᴰ x (read_observations pair (some file ∷ []) (codes "10.0.0.7") 30 20)
            → (e : Observation) × (observed e ≡ x)
              × Kept pair (codes "10.0.0.7") (20 - 30) (some file ∷ []) e)
          × ((e : Observation)
              → observed e ≡ x
              → Kept pair (codes "10.0.0.7") (20 - 30) (some file ∷ []) e
              → Memᴰ x (read_observations pair (some file ∷ []) (codes "10.0.0.7") 30 20)))
read_observations-Kept_example =
    read_observations-Kept pair (some file ∷ []) (codes "10.0.0.7") 30 20

-- Two observers, each with one call that the disk carried out.
abbrev both : List (Bytes × List (Disk × Observation))
both = ([], (works, connect_at 7 443) ∷ []) ∷ (codes "old", (works, connect_at 5 4433) ∷ []) ∷ []

one_Fits : (left_over : Bytes) (t p : ℕ) → Fits pair (left_over, (works, connect_at t p) ∷ [])
unfolding text
one_Fits left_over t p = (((refl, refl, refl), tt), omega arith)

read_observations-those_example :
    read_observations pair (files_of pair both) (codes "10.0.0.7") 30 20
    ≡ map observed (sort_events (those (codes "10.0.0.7") (20 - 30) (all_of pair both)))
read_observations-those_example =
    read_observations-those pair both (codes "10.0.0.7") 30 20
      (one_Fits [] 7 443, (one_Fits (codes "old") 5 4433, tt))
