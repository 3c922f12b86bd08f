-- ===== src/Certs/Modes.antt =====
-- The modes of main.go's `-wtcert`: which certificate each listener serves, and the hash that the
-- page server hands out for pinning.
use semantic_echo.Base.{[], ◌∷◌, Option, none, some, if◌then◌else◌}
use semantic_echo.Base.Text.{Bytes, codes, bytes_eq}
use semantic_echo.Files.{Files}
use semantic_echo.Hosts.{split_comma}
use semantic_echo.Certs.{
  Crypto, Result, ok, ◌>>=◌, or_fatal, or_panic, Draw, KeyPair, hash_of, mint_wt_cert,
}
use semantic_echo.Certs.Authority.{Writes, Authority, mint_page_chain}

module _ (c : Crypto) where
  -- What the listeners of a process share. `loaded` is the outcome of `tls.LoadX509KeyPair`.
  pub record Served : Type 0 where
    pub cert : KeyPair c
    pub page_cert : KeyPair c
    pub hash : Bytes

  -- `pageCert.Certificate[0]` panics on an empty chain.
  abbrev pub leaf_of : KeyPair c → Option Bytes
  leaf_of pair = elim pair.chain [ [] ↦ none | der ∷ _ ↦ some der ]

  abbrev serve_page_chain : Served → Result Served
  serve_page_chain s = do
    leaf ← or_panic (leaf_of s.page_cert)
    ok (record s { cert = s.page_cert; hash = hash_of c leaf })

  abbrev serve_loaded : Option (KeyPair c) → Result Served
  serve_loaded loaded = do
    pair ← or_fatal loaded
    ok (record { cert = pair; page_cert = pair; hash = [] })

  -- `switch wtCertMode`
  unfoldable pub choose_mode : Bytes → Option (KeyPair c) → Served → Result Served
  choose_mode mode loaded s =
      if bytes_eq mode (codes "ca")
      then serve_page_chain s
      else if bytes_eq mode (codes "le")
      then serve_loaded loaded
      else ok s

  -- The part of `main` from the flags to the listeners.
  unfoldable pub choose_certs :
      Bytes
      → Bytes
      → Option (KeyPair c)
      → Files
      → Draw c
      → Draw c
      → Writes
      → Draw c
      → Result (Served × Authority c)
  unfolding choose_mode mint_wt_cert mint_page_chain split_comma
  choose_certs mode sans loaded files wt ca w leaf = do
    let hosts = split_comma sans
    minted ← mint_wt_cert c hosts wt
    paged ← mint_page_chain c files hosts ca w leaf
    served ←
        choose_mode mode loaded (record { cert = minted.0; page_cert = paged.0; hash = minted.1 })
    ok (served, paged.1)
