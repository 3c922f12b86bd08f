-- ===== src/Certs/Persistence.antt =====
-- `loadOrMintCA` over the restarts of the process.
use semantic_echo.Base.{◌≡◌, refl, sym, ap, ◌∙◌, true, false, some, arith, inl, inr, Option-cases}
use semantic_echo.Base.Text.{Bytes, codes, bytes_eq}
use semantic_echo.Files.{Files, write_file, write_file_self, write_file_other}
use semantic_echo.Certs.{Crypto, ok, Draw}
use semantic_echo.Certs.Authority.{
  ca_key_file, ca_cert_file, Writes, Authority, load_ca, mint_ca, load_or_mint_ca,
}

abbrev pub both_written : Writes
both_written = record { key_written = true; cert_written = true }

other_file : bytes_eq ca_cert_file ca_key_file ≡ false
unfolding bytes_eq
other_file = refl

module _ (c : Crypto) where
  abbrev key_pem : Authority c → Bytes
  key_pem a = c.pem_encode (codes "EC PRIVATE KEY") (c.marshal_key a.key)

  abbrev cert_pem : Authority c → Bytes
  cert_pem a = c.pem_encode (codes "CERTIFICATE") a.der

  abbrev Kept : Files → Authority c → Type 0
  Kept before a =
      (a.files ≡ write_file (write_file before ca_key_file (key_pem a)) ca_cert_file (cert_pem a))

  mint_ca-Kept :
      (files : Files) (d : Draw c) (a : Authority c)
      → mint_ca c files d both_written ≡ ok a
      → Kept files a
  unfolding mint_ca
  mint_ca-Kept files d a e = ground arith

  -- The two files of an authority that was written, read again.
  Kept-load :
      (before : Files) (a : Authority c)
      → Kept before a
      → (a.files ca_key_file ≡ some (key_pem a)) × (a.files ca_cert_file ≡ some (cert_pem a))
  Kept-load before a kept = (
    ap (λ (f : Files). f ca_key_file) kept
        ∙ write_file_other _ _ _ _ other_file
        ∙ write_file_self _ _ _,
    ap (λ (f : Files). f ca_cert_file) kept ∙ write_file_self _ _ _,
  )

  load_kept :
      (files : Files) (a : Authority c) (d : Draw c) (w : Writes)
      → files ca_key_file ≡ some (key_pem a)
      → files ca_cert_file ≡ some (cert_pem a)
      → load_or_mint_ca c files d w ≡ ok (record a { files = files })
  unfolding load_or_mint_ca load_ca
  load_kept files a d w k e =
      rw
        (
          load_or_mint_ca,
          k,
          e,
          load_ca,
          c.pem_decode-encode (codes "EC PRIVATE KEY") (c.marshal_key a.key),
          c.parse_key-marshal a.key,
          c.pem_decode-encode (codes "CERTIFICATE") a.der,
        )
        refl

  -- A CA that was minted is the one that the next boot loads.
  load_minted :
      (files : Files) (d : Draw c) (a : Authority c) (d' : Draw c) (w' : Writes)
      → mint_ca c files d both_written ≡ ok a
      → load_or_mint_ca c a.files d' w' ≡ ok a
  load_minted files d a d' w' e =
      let (k, p) = Kept-load files a (mint_ca-Kept files d a e) in load_kept a.files a d' w' k p

  load_ca-files :
      (files : Files) (k p : Bytes) (a : Authority c) → load_ca c files k p ≡ ok a → a.files ≡ files
  unfolding load_ca
  load_ca-files files k p a e = ground arith

  load_or_mint_ca_loaded :
      (files : Files) (k p : Bytes) (d : Draw c) (w : Writes)
      → files ca_key_file ≡ some k
      → files ca_cert_file ≡ some p
      → load_or_mint_ca c files d w ≡ load_ca c files k p
  unfolding load_or_mint_ca
  load_or_mint_ca_loaded files k p d w e f = rw (load_or_mint_ca, e, f) refl

  -- Whatever CA a boot ends up with, minted or loaded, every later boot over the files that it left ends
  -- up with the same key and the same certificate and changes no file, whatever it draws and whether or
  -- not it could write; the boot that mints is one whose two files could be written.
  pub load_or_mint_ca-persists :
      (files : Files) (d : Draw c) (a : Authority c) (d' : Draw c) (w' : Writes)
      → load_or_mint_ca c files d both_written ≡ ok a
      → load_or_mint_ca c a.files d' w' ≡ ok a
  unfolding load_or_mint_ca
  load_or_mint_ca-persists files d a d' w' e = elim (Option-cases (files ca_key_file)) [
    | inl k ↦ load_minted files d a d' w' (rw (load_or_mint_ca, k) at e)
    | inr (k, ek) ↦ elim (Option-cases (files ca_cert_file)) [
      | inl p ↦ load_minted files d a d' w' (rw (load_or_mint_ca, ek, p) at e)
      | inr (p, ep) ↦
          let loaded = sym (load_or_mint_ca_loaded files k p d both_written ek ep) ∙ e in
          let same = load_ca-files files k p a loaded in
          ap (λ (f : Files). load_or_mint_ca c f d' w') same
          ∙ load_or_mint_ca_loaded files k p d' w' ek ep
          ∙ loaded
    ]
  ]
