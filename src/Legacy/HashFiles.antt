-- ===== src/Legacy/HashFiles.antt =====
-- The files of the published hashes: a port's file is its own, and what three calls of `publish` leave.
use semantic_echo.Base.{
  ℕ, ◌≡◌, ◌≢◌, sym, ap, ◌∙◌, false, ◌++◌, some, inl, inr, Bool-cases, length, drop, drop-length,
}
use semantic_echo.Base.Text.{Bytes, codes, bytes_eq, bytes_eq_iff}
use semantic_echo.Strconv.{print_nat, scan_digits}
use semantic_echo.Strconv.RoundTrip.{scan_digits-print_nat}
use semantic_echo.Files.{Files, write_file, write_file_self, write_file_other}
use semantic_echo.Pages.{hash_file}

print_nat_injective : (n m : ℕ) → print_nat n ≡ print_nat m → n ≡ m
print_nat_injective n m e =
    let same : some n ≡ some m =
      sym (scan_digits-print_nat n) ∙ ap scan_digits e ∙ scan_digits-print_nat m in
    cc

hash_file_injective : (dir : Bytes) (n m : ℕ) → hash_file dir n ≡ hash_file dir m → n ≡ m
hash_file_injective dir n m e =
    let before = dir ++ codes "/hash" in
    print_nat_injective n m (
      sym (drop-length before (print_nat n))
      ∙ ap (drop (length before)) e
      ∙ drop-length before (print_nat m))

hash_file_other :
    (dir : Bytes) (n m : ℕ) → n ≢ m → bytes_eq (hash_file dir n) (hash_file dir m) ≡ false
hash_file_other dir n m differ = elim (Bool-cases (bytes_eq (hash_file dir n) (hash_file dir m))) [
  | inl same ↦ absurd (differ (hash_file_injective dir n m ((bytes_eq_iff _ _).0 same)))
  | inr other ↦ other
]

-- Three hashes published at three ports, the first and the last of which are the same hash.
module _ (dir : Bytes) (files : Files) (p q r : ℕ) (hash hash' : Bytes) where
  abbrev pub published : Files
  published =
      write_file (write_file (write_file files (hash_file dir p) hash) (hash_file dir q) hash')
        (hash_file dir r) hash

  pub published_last : published (hash_file dir r) ≡ some hash
  published_last = write_file_self _ _ _

  pub published_second : r ≢ q → published (hash_file dir q) ≡ some hash'
  published_second apart =
      write_file_other _ _ _ _ (hash_file_other dir r q apart) ∙ write_file_self _ _ _

  pub published_first : q ≢ p → published (hash_file dir p) ≡ some hash
  published_first apart = elim (Bool-cases (bytes_eq (hash_file dir r) (hash_file dir p))) [
    | inl same ↦
        ap published (sym ((bytes_eq_iff (hash_file dir r) (hash_file dir p)).0 same))
        ∙ published_last
    | inr other ↦
        write_file_other _ _ _ _ other
        ∙ write_file_other _ _ _ _ (hash_file_other dir q p apart)
        ∙ write_file_self _ _ _
  ]
