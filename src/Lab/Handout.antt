-- ===== src/Lab/Handout.antt =====
-- What a page learns of the lab's certificates: the hash to pin, and the CA to trust.
use semantic_echo.Base.{◌≡◌, refl, List, [], ◌∷◌, Option, some}
use mathlib.Core.Path.{subst}
use semantic_echo.Base.Text.{Bytes, codes, bytes_eq}
use semantic_echo.Strings.{has_prefix, cut_prefix}
use semantic_echo.Files.{Files}
use semantic_echo.Hosts.{split_comma}
use semantic_echo.Observe.{ObservedEvent}
use semantic_echo.Pages.{Site, PageRequest, serve_page, text, answer, content_type}
use semantic_echo.Certs.{Crypto, ok, Draw, KeyPair}
use semantic_echo.Certs.Inversion.{bind_ok, ok_injective}
use semantic_echo.Certs.Authority.{Writes, Authority, load_or_mint_ca}
use semantic_echo.Certs.Modes.{Served, choose_certs}
use semantic_echo.Certs.Pinning.{Prompt}
use semantic_echo.Certs.Choosing.{Promise, choose_certs-Promise}
use semantic_echo.Lab.{Flags, Started, ca_answer, open_servers, lab_main}

serve_page-hash :
    (site : Site) (r : PageRequest)
    → serve_page site (record r { path = codes "/hash" })
      ≡ some (answer (text site.hash) (content_type (codes "text/plain") ∷ []))
unfolding serve_page bytes_eq has_prefix cut_prefix
serve_page-hash site r = refl

module _ (c : Crypto) (f : Flags) (loaded : Option (KeyPair c)) (files : Files) (ca : Draw c)
    (w : Writes) (r : PageRequest) where
  -- What is asked at "/hash" and at the port of the CA.
  abbrev pub HandsOut : Started c → Type 0
  HandsOut m =
      (a : Authority c) × (load_or_mint_ca c files ca w ≡ ok a)
      × Promise c f.mode (split_comma f.sans) loaded a m.served
      × (serve_page m.site (record r { path = codes "/hash" })
          ≡ some (answer (text m.served.hash) (content_type (codes "text/plain") ∷ [])))
      × (m.ca_body ≡ ca_answer a.der)

  -- What the lab serves once it is up. The page server answers "/hash" with the hash of the boot,
  -- whatever else a request says, and the plain-http server answers with the certificate of the local CA
  -- of the boot. In mode `ca` the endpoints and the page server serve the chain of this CA; in mode `le`
  -- both serve the loaded pair and the hash is empty; in every other mode the page is served under the CA.
  -- Where the hash is not empty by the mode, it is that of the leaf that the endpoints serve, and this leaf
  -- is for the hosts of the flag and of a form that a page may pin: not a CA, with a digital signature and
  -- server authentication, valid for at most fourteen days. Each mint reads the clock twice within a day.
  pub lab_main-HandsOut :
      (wt leaf : Draw c) (assets : Bytes) (read_file : Bytes → Option Bytes)
      (observed_paths : List Bytes)
      (read_observations : List (Option Bytes) → Bytes → List ObservedEvent) (m : Started c)
      → Prompt c wt
      → Prompt c leaf
      → lab_main c f loaded files wt ca w leaf assets read_file observed_paths read_observations
        ≡ ok m
      → HandsOut m
  unfolding lab_main
  lab_main-HandsOut wt leaf assets read_file observed_paths read_observations m prompt prompt' e =
      let start = open_servers c f assets read_file observed_paths read_observations in
      let (made, chosen, rest) =
        bind_ok (choose_certs c f.mode f.sans loaded files wt ca w leaf)
          (λ (made : Served c × Authority c). ok (start made)) m e in
      let (authority, promise) =
        choose_certs-Promise c f.mode f.sans loaded files wt ca w leaf made prompt prompt' chosen in
      subst HandsOut (ok_injective rest)
        (made.1, authority, promise, serve_page-hash (start made).site r, refl)
