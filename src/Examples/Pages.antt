-- ===== src/Examples/Pages.antt =====
-- Requests to the page server.
use semantic_echo.Base.{
  Option, List, map, take, ℕ, if◌then◌else◌, ◌≡◌, refl, true, false, [], ◌∷◌, none, some, ◌++◌,
  arith, inl, inr,
}
use semantic_echo.Base.Text.{Bytes, codes, bytes_eq}
use semantic_echo.Net.{colon}
use semantic_echo.Net.Print.{print_v4}
use semantic_echo.Net.Dotted.{quad, mapped}
use semantic_echo.Address.{address_of}
use semantic_echo.Client.{Request, client_address}
use semantic_echo.Client.Agreement.{client_address-address_of}
use semantic_echo.Examples.Address.{udp, udp-IsPlain}
use semantic_echo.Pages.{Site, PageRequest, Response, hash_file, serve_page}
use semantic_echo.Pages.Assets.{
  Entry, file, Visits, enters, reads, ends, joined, hash_assets, hash_assets-joined,
}
use semantic_echo.Pages.Reading.{serve_page-read_file}
use semantic_echo.Pages.Serving.{serve_page_total}
use mathlib.Core.List.{Memᴰ}

abbrev pub proxied : Request
proxied = record {
  fly_client_ip = [];
  x_forwarded_for = print_v4 (quad 10 0 0 7) ++ b',' ∷ codes " 10.0.0.1";
  remote_addr = codes "172.16.0.1:443";
}

client_address-address_of_example :
    (client_address proxied ≡ address_of (print_v4 (quad 10 0 0 7) ++ colon ∷ udp))
    × (client_address proxied
        ≡ address_of (b'[' ∷ (mapped (print_v4 (quad 10 0 0 7)) ++ b']' ∷ colon ∷ udp)))
client_address-address_of_example =
    client_address-address_of 10 0 0 7 (omega arith) (omega arith) (omega arith) (omega arith)
      proxied (codes " 10.0.0.1") udp udp udp-IsPlain udp-IsPlain (inr (inl (refl, refl)))

abbrev pub site : Site
site = record {
  hash = codes "abc";
  hash_dir = codes "/tmp";
  asset_version = codes "v1";
  read_file = some;
  observed_paths = codes "/tmp/observed-lab.jsonl" ∷ [];
  read_observations = λ files address. [];
}

-- A wrong password.
abbrev pub intruder : PageRequest
intruder = record {
  path = codes "/auth/";
  basic_auth = some (codes "retro", codes "guess");
  v = [];
  client = proxied;
}

serve_page_total_example : (a : Response) × (serve_page site intruder ≡ some a)
serve_page_total_example = serve_page_total site intruder

-- Path traversal behind the prefix of the hashes.
abbrev traversal : PageRequest
traversal = record intruder { path = codes "/hash/../secret"; basic_auth = none }

-- A reader that differs from the site's at a secret.
abbrev exposed : Bytes → Option Bytes
exposed path = if bytes_eq path (codes "/etc/passwd") then some (codes "root") else some path

exposed_hash : (p : ℕ) → exposed (hash_file (codes "/tmp") p) ≡ some (hash_file (codes "/tmp") p)
unfolding bytes_eq
exposed_hash p = refl

exposed_observed : (path : Bytes) → Memᴰ path site.observed_paths → exposed path ≡ some path
unfolding bytes_eq
exposed_observed path (Memᴰ.head e) = rw e refl
exposed_observed path (Memᴰ.tail m) = elim m [ ]

serve_page-read_file_example :
    serve_page (record site { read_file = exposed }) traversal ≡ serve_page site traversal
serve_page-read_file_example =
    serve_page-read_file site exposed traversal (λ p small. exposed_hash p) exposed_observed

-- Two files in two directories, with a digest that does nothing and an encoding that adds ten bytes.
abbrev folder : Bytes → Entry
folder path = record { path = path; failed = false; is_dir = true; content = none }

abbrev fonts : List (Bytes × Bytes)
fonts = (codes "a/x", codes "1") ∷ (codes "a/y", codes "2") ∷ []

fonts-Visits : Visits fonts (folder (codes "a") ∷ map file fonts)
fonts-Visits =
    enters (folder (codes "a")) (refl, refl)
      (reads (codes "a/x", codes "1") (reads (codes "a/y", codes "2") ends))

hash_assets-joined_example :
    hash_assets (λ s. s) (λ s. codes "0123456789" ++ s) (folder (codes "a") ∷ map file fonts)
    ≡ some (take 10 (codes "0123456789" ++ joined fonts))
hash_assets-joined_example =
    hash_assets-joined (λ s. s) (λ s. codes "0123456789" ++ s) fonts-Visits (omega arith)
