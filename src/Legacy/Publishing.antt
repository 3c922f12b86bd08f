-- ===== src/Legacy/Publishing.antt =====
-- The hashes that `main` of legacy/main.go writes to files, and the leaves that its listeners serve.
use semantic_echo.Base.{ℕ, ◌≡◌, ◌≢◌, refl, Bool, true, false, List, [], ◌∷◌, Option, none, some}
use mathlib.Core.Path.{subst}
use semantic_echo.Base.Text.{Bytes}
use semantic_echo.Files.{Files}
use semantic_echo.Hosts.{split_comma}
use semantic_echo.Pages.{hash_file}
use semantic_echo.Certs.{
  Crypto, Result, ok, ◌>>=◌, Draw, KeyPair, mint_leaf, signs_data, signs_both,
}
use semantic_echo.Certs.Inversion.{bind_ok, ok_injective}
use semantic_echo.Certs.Pinning.{Prompt, IsPinned, mint_leaf-IsPinned}
use semantic_echo.Legacy.{Flags, publish, serving, Started, legacy_main}
use semantic_echo.Legacy.HashFiles.{published, published_first, published_second, published_last}

module _ (c : Crypto) where
  -- `main` from the certificates on.
  abbrev publish_all :
      Flags
      → Files
      → Bool × Bool × Bool
      → KeyPair c
      → KeyPair c × Bytes
      → KeyPair c × Bytes
      → Result (Started c)
  publish_all f files written chain pinned cert_sign = do
    files₁ ← publish f.hash_dir files written.0 f.pinned_port pinned.1
    files₂ ← publish f.hash_dir files₁ written.1 f.cert_sign_port cert_sign.1
    files₃ ← publish f.hash_dir files₂ written.2 f.alt_port pinned.1
    ok (record {
      listeners =
          serving c f.port chain false
          ∷ serving c f.pinned_port pinned.0 false
          ∷ serving c f.cert_sign_port cert_sign.0 false
          ∷ serving c f.alt_port pinned.0 false
          ∷ serving c f.probe_port chain true
          ∷ [];
      files = files₃;
    })

  abbrev with_pinned :
      Flags
      → Files
      → Draw c
      → Bool × Bool × Bool
      → KeyPair c
      → KeyPair c × Bytes
      → Result (Started c)
  with_pinned f files second written chain pinned = do
    cert_sign ← mint_leaf c (split_comma f.sans) signs_both second
    publish_all f files written chain pinned cert_sign

  abbrev all_started : Flags → Files → KeyPair c → KeyPair c × Bytes → KeyPair c × Bytes → Started c
  all_started f files chain pinned cert_sign = record {
    listeners =
        serving c f.port chain false
        ∷ serving c f.pinned_port pinned.0 false
        ∷ serving c f.cert_sign_port cert_sign.0 false
        ∷ serving c f.alt_port pinned.0 false
        ∷ serving c f.probe_port chain true
        ∷ [];
    files =
        published f.hash_dir files f.pinned_port f.cert_sign_port f.alt_port pinned.1 cert_sign.1;
  }

  publish_all-published :
      (f : Flags) (files : Files) (written : Bool × Bool × Bool) (chain : KeyPair c)
      (pinned cert_sign : KeyPair c × Bytes) (m : Started c)
      → publish_all f files written chain pinned cert_sign ≡ ok m
      → all_started f files chain pinned cert_sign ≡ m
  unfolding publish
  publish_all-published f files (true, true, true) chain pinned cert_sign m e = ok_injective e
  publish_all-published f files (true, true, false) chain pinned cert_sign m e = cc
  publish_all-published f files (true, false, w₃) chain pinned cert_sign m e = cc
  publish_all-published f files (false, w₂, w₃) chain pinned cert_sign m e = cc

  -- A port whose file holds the hash of the leaf that is served on it, a leaf that may be pinned.
  abbrev pub IsPublished : Bytes → Files → List Bytes → ℕ → KeyPair c → Type 0
  IsPublished dir files hosts port pair =
      (hash : Bytes) × IsPinned c hosts pair hash × (files (hash_file dir port) ≡ some hash)

  -- The five listeners of a boot and their certificates.
  abbrev pub IsServed : Flags → Option (KeyPair c) → Started c → KeyPair c → KeyPair c → Type 0
  IsServed f loaded m pinned cert_sign =
      (chain : KeyPair c) × (loaded ≡ some chain)
      × (m.listeners
          ≡ serving c f.port chain false
            ∷ serving c f.pinned_port pinned false
            ∷ serving c f.cert_sign_port cert_sign false
            ∷ serving c f.alt_port pinned false
            ∷ serving c f.probe_port chain true
            ∷ [])

  -- What a boot leaves: the listeners, and three ports that are published.
  abbrev pub IsUp : Flags → Option (KeyPair c) → Started c → Type 0
  IsUp f loaded m =
      (pinned : KeyPair c) × (cert_sign : KeyPair c) × IsServed f loaded m pinned cert_sign
      × IsPublished f.hash_dir m.files (split_comma f.sans) f.pinned_port pinned
      × IsPublished f.hash_dir m.files (split_comma f.sans) f.cert_sign_port cert_sign
      × IsPublished f.hash_dir m.files (split_comma f.sans) f.alt_port pinned

  all_started-IsUp :
      (f : Flags) (files : Files) (chain : KeyPair c) (pinned cert_sign : KeyPair c × Bytes)
      → f.cert_sign_port ≢ f.pinned_port
      → f.alt_port ≢ f.cert_sign_port
      → IsPinned c (split_comma f.sans) pinned.0 pinned.1
      → IsPinned c (split_comma f.sans) cert_sign.0 cert_sign.1
      → IsUp f (some chain) (all_started f files chain pinned cert_sign)
  all_started-IsUp f files chain pinned cert_sign apart apart' first second = (
    pinned.0,
    cert_sign.0,
    (chain, refl, refl),
    (pinned.1, first, published_first _ _ _ _ _ _ _ apart),
    (cert_sign.1, second, published_second _ _ _ _ _ _ _ apart'),
    (pinned.1, first, published_last _ _ _ _ _ _ _),
  )

  -- A boot of the legacy program that gets to its listeners serves the loaded chain on two of them, one
  -- leaf of its own on the pinned and the alternative port and one on the third, and each of these three
  -- ports has a file in the directory of the hashes that holds the hash of the leaf served there, a leaf
  -- that a page may pin. The port of the third differs from the two others, and each mint reads the clock
  -- twice within a day.
  pub legacy_main-IsUp :
      (f : Flags) (loaded : Option (KeyPair c)) (files : Files) (first second : Draw c)
      (written : Bool × Bool × Bool) (m : Started c)
      → Prompt c first
      → Prompt c second
      → f.cert_sign_port ≢ f.pinned_port
      → f.alt_port ≢ f.cert_sign_port
      → legacy_main c f loaded files first second written ≡ ok m
      → IsUp f loaded m
  unfolding legacy_main
  legacy_main-IsUp f none files first second written m p p' apart apart' e = cc
  legacy_main-IsUp f (some chain) files first second written m p p' apart apart' e =
      let hosts = split_comma f.sans in
      let (pinned, minted, e₁) =
        bind_ok (mint_leaf c hosts signs_data first) (with_pinned f files second written chain) m
          e in
      let (cert_sign, minted', e₂) =
        bind_ok (mint_leaf c hosts signs_both second) (publish_all f files written chain pinned) m
          e₁ in
      subst (IsUp f (some chain))
        (publish_all-published f files written chain pinned cert_sign m e₂)
        (all_started-IsUp f files chain pinned cert_sign apart apart'
          (mint_leaf-IsPinned c hosts signs_data first pinned p refl minted)
          (mint_leaf-IsPinned c hosts signs_both second cert_sign p' refl minted'))

  -- The listeners alone need nothing of the ports and the clock.
  pub legacy_main-IsServed :
      (f : Flags) (loaded : Option (KeyPair c)) (files : Files) (first second : Draw c)
      (written : Bool × Bool × Bool) (m : Started c)
      → legacy_main c f loaded files first second written ≡ ok m
      → (pinned : KeyPair c) × (cert_sign : KeyPair c) × IsServed f loaded m pinned cert_sign
  unfolding legacy_main
  legacy_main-IsServed f none files first second written m e = cc
  legacy_main-IsServed f (some chain) files first second written m e =
      let hosts = split_comma f.sans in
      let (pinned, minted, e₁) =
        bind_ok (mint_leaf c hosts signs_data first) (with_pinned f files second written chain) m
          e in
      let (cert_sign, minted', e₂) =
        bind_ok (mint_leaf c hosts signs_both second) (publish_all f files written chain pinned) m
          e₁ in
      (
        pinned.0,
        cert_sign.0,
        subst (λ m'. IsServed f (some chain) m' pinned.0 cert_sign.0)
            (publish_all-published f files written chain pinned cert_sign m e₂) (chain, refl, refl),
      )
