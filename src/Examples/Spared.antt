-- ===== src/Examples/Spared.antt =====
-- The boots of both programs, and a process of each that echoed ten bytes on its first port.
use semantic_echo.Base.{◌≤◌, [], some, none, true, refl, arith, sum_of}
use mathlib.Core.List.{Memᴰ}
use semantic_echo.Address.{address_of}
use semantic_echo.Session.{session_echo_budget}
use semantic_echo.Certs.Persistence.{both_written}
use semantic_echo.Server.Holding.{holds, probes}
use semantic_echo.Examples.Server.{port, asking}
use semantic_echo.Examples.Traffic.{serves, has_written, echoed-Reach}
use semantic_echo.Examples.Certs.{toy, draw, no_files}
use semantic_echo.Examples.Certs
use semantic_echo.Examples.Legacy
use semantic_echo.Examples.Pages.{site}
use semantic_echo.Lab.Spared.{lab_main_spared}
use semantic_echo.Lab.Spared
use semantic_echo.Legacy.Spared.{legacy_main_spared, allowance}
use semantic_echo.Legacy.Spared as LegacySpared

lab_main_spared_example :
    Memᴰ 4433 (Spared.ports Certs.flags)
    × (10 ≤ session_echo_budget)
    × (sum_of (holds (address_of asking.remote)) (serves has_written).visits ≤ 4)
lab_main_spared_example =
    lab_main_spared toy Certs.flags none no_files (draw 7) both_written (draw 3) (draw 9) []
      site.read_file site.observed_paths site.read_observations Certs.up 0 (serves has_written) port
      (address_of asking.remote) has_written echoed-Reach Certs.boot_up
      (((((tt, Memᴰ.head refl), tt), tt), tt), tt) (Memᴰ.head refl) (omega arith)

legacy_main_spared_example :
    Memᴰ 4433 (LegacySpared.ports Legacy.flags)
    × (10 ≤ allowance Legacy.flags 4433)
    × (sum_of (holds (address_of asking.remote)) (serves has_written).visits ≤ 4)
    × (sum_of (probes (address_of asking.remote)) (serves has_written).visits ≤ 1)
legacy_main_spared_example =
    legacy_main_spared toy Legacy.flags (some Legacy.loaded) no_files (draw 1) (draw 2)
      (true, true, true) Legacy.up 0 (serves has_written) port (address_of asking.remote)
      has_written echoed-Reach Legacy.boot_up (((((tt, Memᴰ.head refl), tt), tt), tt), tt)
      (Memᴰ.head refl) (omega arith)
