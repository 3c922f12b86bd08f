-- ===== src/Legacy/Handout.antt =====
-- The way of a hash from the legacy program to a page: by file, and out of the page server of main.go.
use semantic_echo.Base.{
  ℕ, ◌<◌, ◌^◌, ◌≡◌, ◌≢◌, refl, ap, ◌∙◌, Bool, List, [], ◌∷◌, ◌++◌, Option, some,
}
use mathlib.Core.Path.{subst}
use semantic_echo.Base.Text.{Bytes, codes, bytes_eq}
use semantic_echo.Strings.{has_prefix, cut_prefix}
use semantic_echo.Strconv.{print_nat}
use semantic_echo.Strconv.RoundTrip.{print_nat-ne-nil, parse_uint16-print_nat}
use semantic_echo.Files.{Files}
use semantic_echo.Hosts.{split_comma}
use semantic_echo.Pages.{
  or_empty, Site, PageRequest, hash_file, serve_page, answer, text, content_type, published_port,
  serve_published,
}
use semantic_echo.Certs.{Crypto, ok, Draw, KeyPair}
use semantic_echo.Certs.Pinning.{Prompt, IsPinned}
use semantic_echo.Legacy.{Flags, Started, legacy_main}
use semantic_echo.Legacy.Publishing.{IsPublished, IsServed, legacy_main-IsUp}

abbrev pub asks_hash : PageRequest → ℕ → PageRequest
asks_hash r port = record r { path = codes "/hash" ++ print_nat port }

published_port-print_nat :
    (port : ℕ) → port < 2 ^ 16 → published_port (codes "/hash" ++ print_nat port) ≡ some port
unfolding published_port cut_prefix
published_port-print_nat port small = parse_uint16-print_nat port small

-- A path that goes on after "/hash" comes to the end of the handler.
serve_page_suffix :
    (site : Site) (r : PageRequest) (suffix : Bytes)
    → suffix ≢ []
    → let path = codes "/hash" ++ suffix in
      serve_page site (record r { path = path }) ≡ serve_published site path (published_port path)
unfolding serve_page bytes_eq has_prefix
serve_page_suffix site r [] some_bytes = absurd (some_bytes refl)
serve_page_suffix site r (b ∷ s) some_bytes = refl

serve_page-published :
    (site : Site) (r : PageRequest) (port : ℕ)
    → port < 2 ^ 16
    → serve_page site (asks_hash r port)
      ≡ some (
          answer
            (text (or_empty (site.read_file (hash_file site.hash_dir port))))
            (content_type (codes "text/plain") ∷ []))
unfolding serve_published
serve_page-published site r port small =
    serve_page_suffix site r (print_nat port) (print_nat-ne-nil port)
    ∙ rw (published_port-print_nat port small) refl

module _ (c : Crypto) where
  -- The page server answers a port's path with the hash of the leaf that is served on this port.
  abbrev pub HandsOut : Site → PageRequest → List Bytes → ℕ → KeyPair c → Type 0
  HandsOut site r hosts port pair =
      (hash : Bytes) × IsPinned c hosts pair hash
      × (serve_page site (asks_hash r port)
          ≡ some (answer (text hash) (content_type (codes "text/plain") ∷ [])))

  IsPublished-HandsOut :
      (site : Site) (r : PageRequest) (files : Files) (hosts : List Bytes) (port : ℕ)
      (pair : KeyPair c)
      → port < 2 ^ 16
      → ((path : Bytes) → site.read_file path ≡ files path)
      → IsPublished c site.hash_dir files hosts port pair
      → HandsOut site r hosts port pair
  IsPublished-HandsOut site r files hosts port pair small reads (hash, pinned, written) = (
    hash,
    pinned,
    serve_page-published site r port small
        ∙ ap (λ (b : Bytes). some (answer (text b) (content_type (codes "text/plain") ∷ [])))
            (ap or_empty (reads (hash_file site.hash_dir port) ∙ written)),
  )

  -- A page that asks the page server for "/hash" and one of the three ports of a legacy program that is up
  -- is answered with the hash of the leaf that is served on this port, whatever its headers, its query and
  -- its credentials. The two programs are given the same directory, the files are those that the legacy
  -- program left, the ports are below 2 ^ 16, the port of the second leaf differs from the two others, and
  -- each mint reads the clock twice within a day.
  pub legacy_main-HandsOut :
      (f : Flags) (loaded : Option (KeyPair c)) (files : Files) (first second : Draw c)
      (written : Bool × Bool × Bool) (m : Started c) (site : Site) (r : PageRequest)
      → Prompt c first
      → Prompt c second
      → f.cert_sign_port ≢ f.pinned_port
      → f.alt_port ≢ f.cert_sign_port
      → f.pinned_port < 2 ^ 16
      → f.cert_sign_port < 2 ^ 16
      → f.alt_port < 2 ^ 16
      → f.hash_dir ≡ site.hash_dir
      → ((path : Bytes) → site.read_file path ≡ m.files path)
      → legacy_main c f loaded files first second written ≡ ok m
      → (pinned : KeyPair c) × (cert_sign : KeyPair c) × IsServed c f loaded m pinned cert_sign
        × HandsOut site r (split_comma f.sans) f.pinned_port pinned
        × HandsOut site r (split_comma f.sans) f.cert_sign_port cert_sign
        × HandsOut site r (split_comma f.sans) f.alt_port pinned
  legacy_main-HandsOut f loaded files first second written m site r p p' apart apart' s₁ s₂ s₃ dir
        reads e =
      let (pinned, cert_sign, served, a, b, d) =
        legacy_main-IsUp c f loaded files first second written m p p' apart apart' e in
      let hosts = split_comma f.sans in
      let move =
        λ (port : ℕ) (pair : KeyPair c) (h : IsPublished c f.hash_dir m.files hosts port pair).
          subst (λ (dir : Bytes). IsPublished c dir m.files hosts port pair) dir h in
      (
        pinned,
        cert_sign,
        served,
        IsPublished-HandsOut site r m.files hosts f.pinned_port pinned s₁ reads
            (move f.pinned_port pinned a),
        IsPublished-HandsOut site r m.files hosts f.cert_sign_port cert_sign s₂ reads
            (move f.cert_sign_port cert_sign b),
        IsPublished-HandsOut site r m.files hosts f.alt_port pinned s₃ reads
            (move f.alt_port pinned d),
      )
