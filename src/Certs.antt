-- ===== src/Certs.antt =====
-- The certificates of main.go and legacy/main.go: the templates of the leaves, the local CA with its
-- two files, the choice of a mode, and the hash that a page pins.
-- Keys, signatures, digests and encodings belong to Go's crypto packages and are an interface. A call
-- of `log.Fatal` ends the process, and so does a panic on a nil pointer.
pub mod Authority
pub mod Chain
pub mod Choosing
pub mod Modes
pub mod Persistence
pub mod Inversion
pub mod Pinning
use semantic_echo.Base.{
  ℕ, ◌+◌, ◌-◌, ◌*◌, ◌≡◌, Bool, true, false, List, [], ◌∷◌, ◌++◌, Option, none, some, if◌then◌else◌,
}
use semantic_echo.Base.Text.{Bytes, codes, bytes_eq}
use semantic_echo.Files.{Files, write_file}
use semantic_echo.Budgets.{day}
use semantic_echo.Hosts.{Template, add_hosts}

abbrev pub hour : ℕ
hour = 3600 * 1_000_000_000

-- The bits of x509.KeyUsage that the program sets.
pub record KeyUsage : Type 0 where
  pub digital_signature : Bool
  pub cert_sign : Bool

abbrev pub no_usage : KeyUsage
no_usage = record { digital_signature = false; cert_sign = false }

abbrev pub signs_data : KeyUsage
signs_data = record { digital_signature = true; cert_sign = false }

abbrev pub signs_both : KeyUsage
signs_both = record { digital_signature = true; cert_sign = true }

-- The fields of x509.Certificate that the program sets. Times are nanoseconds since the epoch.
pub record Certificate : Type 0 where
  pub serial : ℕ
  pub common_name : Bytes
  pub not_before : ℕ
  pub not_after : ℕ
  pub basic_constraints_valid : Bool
  pub is_ca : Bool
  pub key_usage : KeyUsage
  pub server_auth : Bool
  pub names : Template

-- `newTemplate`. The serial number is drawn at random, and the clock is read twice.
unfoldable pub new_template : Bytes → ℕ → ℕ → ℕ → ℕ → Certificate
new_template cn days serial before after = record {
  serial = serial;
  common_name = cn;
  not_before = before - hour;
  not_after = after + days * day;
  basic_constraints_valid = true;
  is_ca = false;
  key_usage = no_usage;
  server_auth = false;
  names = record { ip_addresses = []; dns_names = [] };
}

-- What the crypto packages do. `signed_by` is the parent that a certificate is created under.
pub record Crypto : Type 1 where
  pub Key : Type 0
  pub Parent : Type 0
  pub self : Certificate → Parent
  pub create_certificate : Certificate → Parent → Key → Key → Option Bytes
  pub parse_certificate : Bytes → Option Parent
  pub marshal_key : Key → Bytes
  pub parse_key : Bytes → Option Key
  pub pem_encode : Bytes → Bytes → Bytes
  pub pem_decode : Bytes → Option Bytes
  pub sha256 : Bytes → Bytes
  pub base64 : Bytes → Bytes
  pub pem_decode-encode : (kind bytes : Bytes) → pem_decode (pem_encode kind bytes) ≡ some bytes
  pub parse_key-marshal : (key : Key) → parse_key (marshal_key key) ≡ some key

-- How a call ends.
pub data Result {ℓ} (A : Type ℓ) : Type ℓ where
  ok : A → Result A
  fatal : Result A
  panic : Result A

infixl 5 ◌>>=◌
abbrev pub ◌>>=◌ {ℓ κ} : {A : Type ℓ} {B : Type κ} → Result A → (A → Result B) → Result B
ok a >>= f = f a
fatal >>= f = fatal
panic >>= f = panic

-- An error that is fatal, and a nil pointer that is followed.
abbrev pub or_fatal {ℓ} : {A : Type ℓ} → Option A → Result A
or_fatal none = fatal
or_fatal (some a) = ok a

abbrev pub or_panic {ℓ} : {A : Type ℓ} → Option A → Result A
or_panic none = panic
or_panic (some a) = ok a

-- What a mint draws: a key if one can be had, a serial number, and two readings of the clock.
pub record Draw (c : Crypto) : Type 0 where
  pub key : Option c.Key
  pub serial : ℕ
  pub before : ℕ
  pub after : ℕ

module _ (c : Crypto) where
  -- tls.Certificate
  pub record KeyPair : Type 0 where
    pub chain : List Bytes
    pub private_key : c.Key

  -- `base64(sha256(der))`
  abbrev pub hash_of : Bytes → Bytes
  hash_of der = c.base64 (c.sha256 der)

  -- What the leaves have in common: `DigitalSignature`, server authentication, and the hosts.
  abbrev pub leaf_template : Bytes → List Bytes → Draw c → Certificate
  leaf_template cn hosts d =
      let t = new_template cn 10 d.serial d.before d.after in
      record t { key_usage = signs_data; server_auth = true; names = add_hosts t.names hosts }

  unfoldable pub mint_wt_cert : List Bytes → Draw c → Result (KeyPair × Bytes)
  unfolding new_template add_hosts
  mint_wt_cert hosts d = do
    key ← or_fatal d.key
    let t = leaf_template (codes "wt-lab") hosts d
    der ← or_fatal (c.create_certificate t (c.self t) key key)
    ok (record { chain = der ∷ []; private_key = key }, hash_of der)

  -- `mintLeaf` of legacy/main.go
  unfoldable pub mint_leaf : List Bytes → KeyUsage → Draw c → Result (KeyPair × Bytes)
  unfolding new_template add_hosts
  mint_leaf hosts usage d = do
    key ← or_fatal d.key
    let t = record (leaf_template (codes "wt-pinned") hosts d) { key_usage = usage }
    der ← or_fatal (c.create_certificate t (c.self t) key key)
    ok (record { chain = der ∷ []; private_key = key }, hash_of der)
