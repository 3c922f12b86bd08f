-- ===== src/Files.antt =====
-- Files by their paths: what `os.ReadFile` and `os.WriteFile` do to the directory.
use semantic_echo.Base.{◌≡◌, refl, false, Option, some, if◌then◌else◌}
use semantic_echo.Base.Text.{Bytes, bytes_eq, bytes_eq_refl}

abbrev pub Files : Type 0
Files = Bytes → Option Bytes

unfoldable pub write_file : Files → Bytes → Bytes → Files
write_file files path content p = if bytes_eq path p then some content else files p

pub write_file_self :
    (files : Files) (path content : Bytes) → write_file files path content path ≡ some content
unfolding write_file
write_file_self files path content = rw (bytes_eq_refl path) refl

pub write_file_other :
    (files : Files) (path content p : Bytes)
    → bytes_eq path p ≡ false
    → write_file files path content p ≡ files p
unfolding write_file
write_file_other files path content p other = rw other refl
