-- ===== src/Examples/Address.antt =====
-- The address of a client, in both forms in which a socket reports it.
use semantic_echo.Base.{◌≡◌, arith}
use semantic_echo.Base.Text.{Bytes, codes}
use semantic_echo.Net.Hostport.Cutting.{IsPlain}
use semantic_echo.Address.{normalize_address}
use semantic_echo.Address.Canonical.{normalize_address_idem}

abbrev pub udp : Bytes
udp = codes "50123"

pub udp-IsPlain : IsPlain udp
udp-IsPlain = record { no_colon = omega arith; no_open = omega arith; no_close = omega arith }

-- An IPv6 address in a long spelling.
normalize_address_idem_example :
    normalize_address (normalize_address (codes "2001:DB8:0:0:0:0:0:1"))
    ≡ normalize_address (codes "2001:DB8:0:0:0:0:0:1")
normalize_address_idem_example = normalize_address_idem (codes "2001:DB8:0:0:0:0:0:1")
