-- ===== src/Certs/Choosing.antt =====
-- The certificates that `main` of main.go gives to its listeners, mode by mode, and the hash that it
-- hands out with them.
use semantic_echo.Base.{◌≡◌, refl, true, false, List, [], Option, none, some, inl, inr, Bool-cases}
use mathlib.Core.Path.{subst}
use semantic_echo.Base.Text.{Bytes, codes, bytes_eq}
use semantic_echo.Files.{Files}
use semantic_echo.Hosts.{split_comma}
use semantic_echo.Certs.{Crypto, Result, ok, ◌>>=◌, Draw, KeyPair, hash_of, mint_wt_cert}
use semantic_echo.Certs.Inversion.{bind_ok, ok_injective}
use semantic_echo.Certs.Authority.{Writes, Authority, mint_page_chain, load_or_mint_ca}
use semantic_echo.Certs.Modes.{Served, choose_mode, choose_certs}
use semantic_echo.Certs.Pinning.{Prompt}
use semantic_echo.Certs.Pinning.{IsPinned, mint_wt_cert-IsPinned}
use semantic_echo.Certs.Chain.{IsPage, mint_page_chain-IsPage}

module _ (c : Crypto) where
  -- What a mode promises of the shared certificates.
  pub data Promise (mode : Bytes) (hosts : List Bytes) (loaded : Option (KeyPair c))
      (a : Authority c) (s : Served c) : Type 0 where
    in_ca :
        bytes_eq mode (codes "ca") ≡ true
        → s.cert ≡ s.page_cert
        → IsPage c hosts a s.page_cert
        → IsPinned c hosts s.cert s.hash
        → Promise mode hosts loaded a s
    in_le :
        bytes_eq mode (codes "le") ≡ true
        → loaded ≡ some s.cert
        → s.page_cert ≡ s.cert
        → s.hash ≡ []
        → Promise mode hosts loaded a s
    in_hash :
        bytes_eq mode (codes "ca") ≡ false
        → bytes_eq mode (codes "le") ≡ false
        → IsPage c hosts a s.page_cert
        → IsPinned c hosts s.cert s.hash
        → Promise mode hosts loaded a s

  serve_ca :
      (mode : Bytes) (hosts : List Bytes) (loaded : Option (KeyPair c)) (a : Authority c)
      (s s' : Served c)
      → bytes_eq mode (codes "ca") ≡ true
      → IsPage c hosts a s.page_cert
      → choose_mode c mode loaded s ≡ ok s'
      → Promise mode hosts loaded a s'
  unfolding choose_mode
  serve_ca mode hosts loaded a s s' ca page e =
      let new : Served c = record {
        cert = s.page_cert;
        page_cert = s.page_cert;
        hash = hash_of c page.0;
      } in
      let same : new ≡ s' = ok_injective (rw (ca, page.1.first) at e) in
      subst (Promise mode hosts loaded a) same (in_ca ca refl page (page.0, page.1, refl))

  serve_le :
      (mode : Bytes) (hosts : List Bytes) (loaded : Option (KeyPair c)) (a : Authority c)
      (s s' : Served c)
      → bytes_eq mode (codes "ca") ≡ false
      → bytes_eq mode (codes "le") ≡ true
      → choose_mode c mode loaded s ≡ ok s'
      → Promise mode hosts loaded a s'
  unfolding choose_mode
  serve_le mode hosts none a s s' not_ca le e = cc (rw (not_ca, le) at e)
  serve_le mode hosts (some pair) a s s' not_ca le e =
      let new : Served c = record { cert = pair; page_cert = pair; hash = [] } in
      let same : new ≡ s' = ok_injective (rw (not_ca, le) at e) in
      subst (Promise mode hosts (some pair) a) same (in_le le refl refl refl)

  choose_mode-Promise :
      (mode : Bytes) (hosts : List Bytes) (loaded : Option (KeyPair c)) (a : Authority c)
      (s s' : Served c)
      → IsPage c hosts a s.page_cert
      → IsPinned c hosts s.cert s.hash
      → choose_mode c mode loaded s ≡ ok s'
      → Promise mode hosts loaded a s'
  unfolding choose_mode
  choose_mode-Promise mode hosts loaded a s s' page pinned e =
      elim (Bool-cases (bytes_eq mode (codes "ca"))) [
        | inl ca ↦ serve_ca mode hosts loaded a s s' ca page e
        | inr not_ca ↦ elim (Bool-cases (bytes_eq mode (codes "le"))) [
          | inl le ↦ serve_le mode hosts loaded a s s' not_ca le e
          | inr not_le ↦
              let same : s ≡ s' = ok_injective (rw (not_ca, not_le) at e) in
              subst (Promise mode hosts loaded a) same (in_hash not_ca not_le page pinned)
        ]
      ]

  -- `main` from the mode on, and from the page chain on.
  abbrev with_mode :
      Bytes
      → Option (KeyPair c)
      → KeyPair c × Bytes
      → KeyPair c × Authority c
      → Result (Served c × Authority c)
  with_mode mode loaded minted paged = do
    served ←
        choose_mode c mode loaded (record { cert = minted.0; page_cert = paged.0; hash = minted.1 })
    ok (served, paged.1)

  abbrev with_page :
      Bytes
      → Bytes
      → Option (KeyPair c)
      → Files
      → Draw c
      → Writes
      → Draw c
      → KeyPair c × Bytes
      → Result (Served c × Authority c)
  with_page mode sans loaded files ca w leaf minted = do
    paged ← mint_page_chain c files (split_comma sans) ca w leaf
    with_mode mode loaded minted paged

  -- The certificates of a boot keep the promise of its mode.
  pub choose_certs-Promise :
      (mode sans : Bytes) (loaded : Option (KeyPair c)) (files : Files) (wt ca : Draw c)
      (w : Writes) (leaf : Draw c) (m : Served c × Authority c)
      → Prompt c wt
      → Prompt c leaf
      → choose_certs c mode sans loaded files wt ca w leaf ≡ ok m
      → (load_or_mint_ca c files ca w ≡ ok m.1) × Promise mode (split_comma sans) loaded m.1 m.0
  unfolding choose_certs
  choose_certs-Promise mode sans loaded files wt ca w leaf m prompt prompt' e =
      let hosts = split_comma sans in
      let (minted, own, e₁) =
        bind_ok (mint_wt_cert c hosts wt) (with_page mode sans loaded files ca w leaf) m e in
      let (paged, chained, e₂) =
        bind_ok (mint_page_chain c files hosts ca w leaf) (with_mode mode loaded minted) m e₁ in
      let (authority, page) =
        mint_page_chain-IsPage c files hosts ca w leaf paged prompt' chained in
      let pinned = mint_wt_cert-IsPinned c hosts wt minted prompt own in
      let start : Served c = record { cert = minted.0; page_cert = paged.0; hash = minted.1 } in
      let (served, chosen, e₃) =
        bind_ok (choose_mode c mode loaded start) (λ (s : Served c). ok (s, paged.1)) m e₂ in
      let promise = choose_mode-Promise mode hosts loaded paged.1 start served page pinned chosen in
      let same : (served, paged.1) ≡ m = ok_injective e₃ in
      subst
        (λ (m : Served c × Authority c).
          (load_or_mint_ca c files ca w ≡ ok m.1) × Promise mode hosts loaded m.1 m.0)
        same (authority, promise)
