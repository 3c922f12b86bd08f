-- ===== src/Examples/Hosts.antt =====
-- The default flag.
use semantic_echo.Base.{◌≡◌, [], ◌∷◌, List, arith}
use semantic_echo.Base.Text.{Bytes, codes}
use semantic_echo.Hosts.{split_comma}
use semantic_echo.Hosts.Joining.{split_comma-join}

abbrev hosts : List Bytes
hosts = codes "localhost" ∷ codes "::1" ∷ []

split_comma-join_example : split_comma (codes "localhost,::1") ≡ hosts
split_comma-join_example =
    split_comma-join hosts
      ((λ e. ground arith, omega arith), ((λ e. ground arith, omega arith), tt))
