-- ===== src/Examples/Certs.antt =====
-- Boots of the two programs with a crypto that names what it is given.
use semantic_echo.Base.{ℕ, ◌+◌, ◌≡◌, refl, false, [], ◌∷◌, Option, none, some, arith}
use semantic_echo.Base.Text.{Bytes, codes, bytes_eq}
use semantic_echo.Files.{Files, write_file}
use semantic_echo.Certs.{Crypto, ok, Draw, KeyPair, new_template, mint_wt_cert}
use semantic_echo.Certs.Authority.{
  Writes, Authority, ca_key_file, ca_cert_file, load_ca, mint_ca, load_or_mint_ca, mint_page_chain,
}
use semantic_echo.Certs.Modes.{Served, choose_mode, choose_certs}
use semantic_echo.Certs.Persistence.{both_written, load_or_mint_ca-persists}
use semantic_echo.Certs.Chain.{IsPage, mint_page_chain-trusted}
use semantic_echo.Examples.Pages.{site, intruder}
use semantic_echo.Lab.{Flags, Started, open_servers, lab_main}
use semantic_echo.Lab.Handout.{HandsOut, lab_main-HandsOut}

abbrev key_of : Bytes → Option ℕ
key_of (k ∷ []) = some k
key_of _ = none

-- A certificate is the list of its serial number, its key and its signer's key.
abbrev pub toy : Crypto
toy = record {
  Key = ℕ;
  Parent = Bytes;
  self = λ t. t.serial ∷ [];
  create_certificate = λ t parent key signer. some (t.serial ∷ key ∷ signer ∷ []);
  parse_certificate = λ der. some der;
  marshal_key = λ key. key ∷ [];
  parse_key = key_of;
  pem_encode = λ kind bytes. bytes;
  pem_decode = λ bytes. some bytes;
  sha256 = λ bytes. bytes;
  base64 = λ bytes. bytes;
  pem_decode-encode = λ kind bytes. refl;
  parse_key-marshal = λ key. refl;
}

abbrev pub draw : ℕ → Draw toy
draw n = record { key = some n; serial = 100 + n; before = 1000; after = 1001 }

abbrev pub no_files : Files
no_files path = none

abbrev pub minted : Authority toy
minted = record {
  key = 7;
  der = 107 ∷ 7 ∷ 7 ∷ [];
  files = write_file (write_file no_files ca_key_file (7 ∷ [])) ca_cert_file (107 ∷ 7 ∷ 7 ∷ []);
}

first_boot : load_or_mint_ca toy no_files (draw 7) both_written ≡ ok minted
unfolding load_or_mint_ca mint_ca new_template
first_boot = refl

abbrev unwritten : Writes
unwritten = record { key_written = false; cert_written = false }

load_or_mint_ca-persists_example : load_or_mint_ca toy minted.files (draw 8) unwritten ≡ ok minted
load_or_mint_ca-persists_example =
    load_or_mint_ca-persists toy no_files (draw 7) minted (draw 8) unwritten first_boot

abbrev page_pair : ℕ → KeyPair toy
page_pair n = record { chain = ((100 + n) ∷ n ∷ 7 ∷ []) ∷ minted.der ∷ []; private_key = n }

first_page :
    mint_page_chain toy no_files (codes "a" ∷ []) (draw 7) both_written (draw 9)
    ≡ ok (page_pair 9, minted)
unfolding mint_page_chain load_or_mint_ca mint_ca new_template
first_page = refl

second_page :
    mint_page_chain toy minted.files (codes "b" ∷ []) (draw 8) unwritten (draw 10)
    ≡ ok (page_pair 10, minted)
unfolding mint_page_chain load_or_mint_ca load_ca write_file bytes_eq new_template
second_page = refl

mint_page_chain-trusted_example :
    (minted ≡ minted) × IsPage toy (codes "b" ∷ []) minted (page_pair 10)
mint_page_chain-trusted_example =
    mint_page_chain-trusted toy no_files (codes "a" ∷ []) (codes "b" ∷ []) (draw 7) (draw 8)
      unwritten (draw 9) (draw 10) (page_pair 9, minted) (page_pair 10, minted) (omega arith)
      (omega arith) first_page second_page

abbrev own : KeyPair toy
own = record { chain = (103 ∷ 3 ∷ 3 ∷ []) ∷ []; private_key = 3 }

abbrev pub shared : Served toy
shared = record { cert = own; page_cert = page_pair 9; hash = 103 ∷ 3 ∷ 3 ∷ [] }

abbrev pub flags : Flags
flags = record {
  port = 4433;
  page_port = 4434;
  trio_port = 4440;
  mode = codes "hash";
  hash_dir = codes "/tmp";
  sans = codes "a";
}

abbrev pub up : Started toy
up =
    open_servers toy flags [] site.read_file site.observed_paths site.read_observations
      (shared, minted)

pub boot_up :
    lab_main toy flags none no_files
      (draw 3)
      (draw 7)
      both_written
      (draw 9)
      []
      site.read_file
      site.observed_paths
      site.read_observations
    ≡ ok up
unfolding lab_main choose_certs choose_mode mint_wt_cert mint_page_chain load_or_mint_ca mint_ca
    new_template bytes_eq
boot_up = refl

lab_main-HandsOut_example : HandsOut toy flags none no_files (draw 7) both_written intruder up
lab_main-HandsOut_example =
    lab_main-HandsOut toy flags none no_files (draw 7) both_written intruder (draw 3) (draw 9) []
      site.read_file site.observed_paths site.read_observations up (omega arith) (omega arith)
      boot_up
