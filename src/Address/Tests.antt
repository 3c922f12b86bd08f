-- ===== src/Address/Tests.antt =====
-- Runs of the address functions on single inputs.
use semantic_echo.Base.{◌≡◌, refl}
use semantic_echo.Base.Text.{codes}
use semantic_echo.Net.{
  parse_ip, family, v4_fields, parse_v6, contains, v6_groups, hex_group, embedded, separator,
  expand, to_v4, is_loopback,
}
use semantic_echo.Net.Print.{ip_string, print_byte}
use semantic_echo.Net.Hostport.{split_host_port}
use semantic_echo.Address.{normalize_address, address_of}

loopback_spellings :
    (address_of (codes "[::1]:50123") ≡ codes "127.0.0.1")
    × (address_of (codes "127.9.0.1:1") ≡ codes "127.0.0.1")
    × (address_of (codes "[::ffff:10.0.0.7]:4433") ≡ codes "10.0.0.7")
    × (normalize_address (codes "2001:DB8:0:0:1:0:0:0") ≡ codes "2001:db8:0:0:1::")
    × (normalize_address (codes "fe80::1%eth0") ≡ codes "fe80::1%eth0")
    × (normalize_address (codes "::ffff:a00:7") ≡ codes "10.0.0.7")
    × (normalize_address (codes "1.2.3.04") ≡ codes "1.2.3.04")
unfolding address_of normalize_address parse_ip family v4_fields parse_v6 contains v6_groups
    hex_group embedded separator expand to_v4 is_loopback ip_string print_byte split_host_port
loopback_spellings = (refl, refl, refl, refl, refl, refl, refl)
