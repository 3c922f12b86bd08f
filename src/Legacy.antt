-- ===== src/Legacy.antt =====
-- `main` of legacy/main.go: its certificates, the hashes that it publishes by file, and its listeners.
-- `tls.LoadX509KeyPair` is an argument, and so is whether each file can be written. Ports are those of
-- the flags.
pub mod HashFiles
pub mod Publishing
pub mod Handout
pub mod Supervision
pub mod Spared
use semantic_echo.Base.{
  ℕ, Bool, true, false, List, [], ◌∷◌, ◌++◌, Option, none, some, if◌then◌else◌,
}
use semantic_echo.Base.Text.{Bytes}
use semantic_echo.Files.{Files, write_file}
use semantic_echo.Hosts.{split_comma}
use semantic_echo.Endpoint.{Listener}
use semantic_echo.Pages.{hash_file}
use semantic_echo.Certs.{
  Crypto, Result, ok, fatal, panic, ◌>>=◌, or_fatal, Draw, KeyPair, mint_leaf, signs_data,
  signs_both,
}

pub record Flags : Type 0 where
  pub port : ℕ
  pub pinned_port : ℕ
  pub cert_sign_port : ℕ
  pub probe_port : ℕ
  pub alt_port : ℕ
  pub hash_dir : Bytes
  pub sans : Bytes

-- `publish`: a file that cannot be written is fatal.
unfoldable pub publish : Bytes → Files → Bool → ℕ → Bytes → Result Files
publish dir files written port hash =
    if written then ok (write_file files (hash_file dir port) hash) else fatal

module _ (c : Crypto) where
  -- One call of `serveWT`: the listener, and the certificate that it serves.
  pub record Serving : Type 0 where
    pub listener : Listener
    pub cert : KeyPair c

  abbrev pub serving : ℕ → KeyPair c → Bool → Serving
  serving port cert probe = record { listener = record { port = port; probe = probe }; cert = cert }

  pub record Started : Type 0 where
    pub listeners : List Serving
    pub files : Files

  -- `written` says of each of the three hash files whether it can be written.
  unfoldable pub legacy_main :
      Flags → Option (KeyPair c) → Files → Draw c → Draw c → Bool × Bool × Bool → Result Started
  unfolding publish
  legacy_main f loaded files first second written = do
    chain ← or_fatal loaded
    let hosts = split_comma f.sans
    pinned ← mint_leaf c hosts signs_data first
    cert_sign ← mint_leaf c hosts signs_both second
    files₁ ← publish f.hash_dir files written.0 f.pinned_port pinned.1
    files₂ ← publish f.hash_dir files₁ written.1 f.cert_sign_port cert_sign.1
    files₃ ← publish f.hash_dir files₂ written.2 f.alt_port pinned.1
    ok (record {
      listeners =
          serving f.port chain false
          ∷ serving f.pinned_port pinned.0 false
          ∷ serving f.cert_sign_port cert_sign.0 false
          ∷ serving f.alt_port pinned.0 false
          ∷ serving f.probe_port chain true
          ∷ [];
      files = files₃;
    })
