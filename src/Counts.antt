-- ===== src/Counts.antt =====
-- A Go `map[string]int` as an association list: a missing key reads 0, a write replaces the entry
-- or adds one, and `delete` drops the entry.
use semantic_echo.Base.{
  ℕ, ◌≤◌, ◌<◌, ◌≡◌, ◌≢◌, refl, List, [], ◌∷◌, arith, All, if◌then◌else◌, Bool-cases, inl, inr,
}
use semantic_echo.Base.Text.{Bytes, bytes_eq, bytes_eq_iff, bytes_eq_refl}

abbrev pub Counts : Type 0
Counts = List (Bytes × ℕ)

unfoldable pub get : Counts → Bytes → ℕ
get [] k = 0
get ((j, v) ∷ m) k = if bytes_eq j k then v else get m k

unfoldable pub set : Counts → Bytes → ℕ → Counts
set [] k v = (k, v) ∷ []
set ((j, w) ∷ m) k v = if bytes_eq j k then (j, v) ∷ m else (j, w) ∷ set m k v

unfoldable pub delete : Counts → Bytes → Counts
delete [] k = []
delete ((j, w) ∷ m) k = if bytes_eq j k then delete m k else (j, w) ∷ delete m k

pub get-set :
    (m : Counts) (k j : Bytes) (v : ℕ) → get (set m k v) j ≡ (if bytes_eq k j then v else get m j)
unfolding get set
get-set [] k j v = refl
get-set ((i, w) ∷ m) k j v =
    ground (arith, bytes_eq_iff i k, bytes_eq_iff i j, bytes_eq_iff k j, get-set m k j v)

pub get-delete :
    (m : Counts) (k j : Bytes) → get (delete m k) j ≡ (if bytes_eq k j then 0 else get m j)
unfolding get delete
get-delete [] k j = ground arith
get-delete ((i, w) ∷ m) k j =
    ground (arith, bytes_eq_iff i k, bytes_eq_iff i j, bytes_eq_iff k j, get-delete m k j)

-- No two entries have one key.
abbrev pub Distinct : Counts → Type 0
Distinct [] = Unit {0}
Distinct ((k, _) ∷ m) = All (λ e. e.0 ≢ k) m × Distinct m

-- Every entry lies between 1 and `most`.
abbrev pub Within : ℕ → Counts → Type 0
Within most = All (λ e. (0 < e.1) × (e.1 ≤ most))

-- Reading within a map whose entries are bounded.
pub get-Within : (most : ℕ) (m : Counts) (k : Bytes) → Within most m → get m k ≤ most
unfolding get
get-Within most [] k h = omega arith
get-Within most ((j, v) ∷ m) k h = ground (arith, get-Within most m k h.1)

pub set-Within :
    (most : ℕ) (m : Counts) (k : Bytes) (v : ℕ)
    → 0 < v
    → v ≤ most
    → Within most m
    → Within most (set m k v)
unfolding set
set-Within most [] k v p q h = ((p, q), tt)
set-Within most ((j, w) ∷ m) k v p q h = ground (arith, set-Within most m k v p q h.1)

pub delete-Within : (most : ℕ) (m : Counts) (k : Bytes) → Within most m → Within most (delete m k)
unfolding delete
delete-Within most [] k h = tt
delete-Within most ((j, w) ∷ m) k h = ground (arith, delete-Within most m k h.1)

set-Absent :
    (m : Counts) (k i : Bytes) (v : ℕ)
    → k ≢ i
    → All (λ e. e.0 ≢ i) m
    → All (λ e. e.0 ≢ i) (set m k v)
unfolding set
set-Absent [] k i v n h = (n, tt)
set-Absent ((j, w) ∷ m) k i v n h = ground (arith, set-Absent m k i v n h.1)

pub set-Distinct : (m : Counts) (k : Bytes) (v : ℕ) → Distinct m → Distinct (set m k v)
unfolding set
set-Distinct [] k v h = (tt, tt)
set-Distinct ((j, w) ∷ m) k v h = elim (Bool-cases (bytes_eq j k)) [
  | inl same ↦ rw same h
  | inr other ↦
      rw other
        (set-Absent m k j v (λ e. ground (arith, bytes_eq_iff j k)) h.0, set-Distinct m k v h.1)
]

delete-Absent : (m : Counts) (k i : Bytes) → All (λ e. e.0 ≢ i) m → All (λ e. e.0 ≢ i) (delete m k)
unfolding delete
delete-Absent [] k i h = tt
delete-Absent ((j, w) ∷ m) k i h = ground (arith, delete-Absent m k i h.1)

pub delete-Distinct : (m : Counts) (k : Bytes) → Distinct m → Distinct (delete m k)
unfolding delete
delete-Distinct [] k h = tt
delete-Distinct ((j, w) ∷ m) k h = ground (arith, delete-Distinct m k h.1, delete-Absent m k j h.0)

-- A first entry that is written and dropped again leaves the map as it was.
pub delete-set_new :
    (m : Counts) (k : Bytes) (v most : ℕ) → get m k ≡ 0 → Within most m → delete (set m k v) k ≡ m
unfolding get set delete
delete-set_new [] k v most h p = ground (arith, bytes_eq_refl k)
delete-set_new ((j, w) ∷ m) k v most h p = ground (arith, delete-set_new m k v most)

-- Writing an entry and writing back what stood there.
pub set-set_back : (m : Counts) (k : Bytes) (v : ℕ) → 0 < get m k → set (set m k v) k (get m k) ≡ m
unfolding get set
set-set_back [] k v h = absurd (omega arith)
set-set_back ((j, w) ∷ m) k v h = ground (arith, set-set_back m k v)

-- A bounded map in which every key reads 0 is empty.
pub empty_of_get : (m : Counts) (most : ℕ) → Within most m → ((k : Bytes) → get m k ≡ 0) → m ≡ []
unfolding get
empty_of_get [] most p h = refl
empty_of_get ((j, w) ∷ m) most p h = ground (arith, h j, bytes_eq_refl j)
