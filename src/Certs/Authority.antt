-- ===== src/Certs/Authority.antt =====
-- `loadOrMintCA` and `mintPageChain` of main.go: the local CA that is kept in two files, and the leaf
-- of the page server under it.
use semantic_echo.Base.{Bool, true, List, [], ◌∷◌, none, some, if◌then◌else◌}
use semantic_echo.Base.Text.{Bytes, codes}
use semantic_echo.Files.{Files, write_file}
use semantic_echo.Hosts.{add_hosts}
use semantic_echo.Certs.{
  Certificate, Crypto, Result, ok, ◌>>=◌, or_fatal, or_panic, Draw, KeyPair, new_template,
  leaf_template, signs_both,
}

abbrev pub ca_key_file : Bytes
ca_key_file = codes "ca.key"

abbrev pub ca_cert_file : Bytes
ca_cert_file = codes "ca.pem"

-- Whether each of the two calls of `os.WriteFile` succeeds; their errors are not looked at.
pub record Writes : Type 0 where
  pub key_written : Bool
  pub cert_written : Bool

abbrev pub write_if : Bool → Files → Bytes → Bytes → Files
write_if written files path content = if written then write_file files path content else files

module _ (c : Crypto) where
  -- A CA, and the files behind the call.
  pub record Authority : Type 0 where
    pub key : c.Key
    pub der : Bytes
    pub files : Files

  -- The files are there: `keyBlock.Bytes` and `certBlock.Bytes` follow what `pem.Decode` returned.
  unfoldable pub load_ca : Files → Bytes → Bytes → Result Authority
  load_ca files key_pem cert_pem = do
    key_bytes ← or_panic (c.pem_decode key_pem)
    key ← or_fatal (c.parse_key key_bytes)
    der ← or_panic (c.pem_decode cert_pem)
    ok (record { key = key; der = der; files = files })

  abbrev pub ca_template : Draw c → Certificate
  ca_template d = record (new_template (codes "wt-lab local CA") 30 d.serial d.before d.after) {
    is_ca = true;
    key_usage = signs_both;
  }

  unfoldable pub mint_ca : Files → Draw c → Writes → Result Authority
  unfolding new_template
  mint_ca files d w = do
    key ← or_fatal d.key
    der ← or_fatal (c.create_certificate (ca_template d) (c.self (ca_template d)) key key)
    let key_pem = c.pem_encode (codes "EC PRIVATE KEY") (c.marshal_key key)
    let cert_pem = c.pem_encode (codes "CERTIFICATE") der
    let files' = write_if w.key_written files ca_key_file key_pem
    ok (record {
      key = key;
      der = der;
      files = write_if w.cert_written files' ca_cert_file cert_pem;
    })

  unfoldable pub load_or_mint_ca : Files → Draw c → Writes → Result Authority
  unfolding load_ca mint_ca
  load_or_mint_ca files d w = elim (files ca_key_file) [
    | none ↦ mint_ca files d w
    | some key_pem ↦ elim (files ca_cert_file) [
      | none ↦ mint_ca files d w
      | some cert_pem ↦ load_ca files key_pem cert_pem
    ]
  ]

  -- `mintPageChain`: the chain, and the CA behind the call. The error of `ParseCertificate` is not
  -- looked at; a parent that is nil makes `CreateCertificate` panic.
  unfoldable pub mint_page_chain :
      Files → List Bytes → Draw c → Writes → Draw c → Result (KeyPair c × Authority)
  unfolding load_or_mint_ca new_template add_hosts
  mint_page_chain files hosts ca w d = do
    authority ← load_or_mint_ca files ca w
    let parent_ = c.parse_certificate authority.der
    key ← or_fatal d.key
    parent ← or_panic parent_
    let t = leaf_template c (codes "wt-lab page") hosts d
    der ← or_fatal (c.create_certificate t parent key authority.key)
    ok (record { chain = der ∷ authority.der ∷ []; private_key = key }, authority)
