-- ===== src/Lab.antt =====
-- `main` of main.go from its flags to its servers: the certificates, the endpoints on three ports, the
-- page server, and the plain-http server that hands out the CA.
-- What the operating system and crypto do is an argument, and so are the flags; a port that cannot be
-- bound shows nowhere here.
pub mod Handout
pub mod Spared
use semantic_echo.Base.{
  ℕ, ◌+◌, ◌^◌, Bool, true, false, List, [], ◌∷◌, Option, none, some, if◌then◌else◌,
}
use semantic_echo.Base.Text.{Bytes, codes}
use semantic_echo.Files.{Files}
use semantic_echo.Hosts.{split_comma}
use semantic_echo.Endpoint.{Listener}
use semantic_echo.Observe.{ObservedEvent}
use semantic_echo.Pages.{Site, Response, text, answer, content_type}
use semantic_echo.Certs.{Crypto, Result, ok, fatal, panic, ◌>>=◌, Draw, KeyPair}
use semantic_echo.Certs.Authority.{Writes, Authority}
use semantic_echo.Certs.Modes.{Served, choose_certs}

pub record Flags : Type 0 where
  pub port : ℕ
  pub page_port : ℕ
  pub trio_port : ℕ
  pub mode : Bytes
  pub hash_dir : Bytes
  pub sans : Bytes

-- The fields of webtransport.Config that are set; none is the control.
pub record FlowControl : Type 0 where
  pub max_incoming_streams : ℕ
  pub max_incoming_uni_streams : ℕ
  pub max_incoming_data : ℕ

abbrev pub trio : FlowControl
trio = record {
  max_incoming_streams = 2 ^ 60;
  max_incoming_uni_streams = 2 ^ 60;
  max_incoming_data = 2 ^ 60;
}

-- One call of `startWT`. The server has the port, its configuration, and `tlsConf`, which all share.
pub record WtServer : Type 0 where
  pub listener : Listener
  pub config : Option FlowControl

abbrev pub start_wt : ℕ → Option FlowControl → WtServer
start_wt port config = record { listener = record { port = port; probe = false }; config = config }

-- The handler of `caServer`: the same answer to every request.
abbrev pub ca_answer : Bytes → Response
ca_answer der = answer (text der) (
    content_type (codes "application/x-x509-ca-cert")
    ∷ (codes "Content-Disposition", codes "attachment; filename=\"wt-lab-ca.crt\"")
    ∷ [])

module _ (c : Crypto) where
  pub record Started : Type 0 where
    pub served : Served c
    pub endpoints : List WtServer
    pub page_port : ℕ
    pub site : Site
    pub ca_port : ℕ
    pub ca_body : Response
    pub files : Files

  -- `main` from the certificates on. `read_file`, `observed_paths` and `read_observations` are what the handlers later
  -- find on the disk.
  abbrev pub open_servers :
      Flags
      → Bytes
      → (Bytes → Option Bytes)
      → List Bytes
      → (List (Option Bytes) → Bytes → List ObservedEvent)
      → Served c × Authority c
      → Started
  open_servers f assets read_file observed_paths read_observations (served, a) = record {
    served = served;
    endpoints = start_wt f.port none ∷ start_wt 443 none ∷ start_wt f.trio_port (some trio) ∷ [];
    page_port = f.page_port;
    site = record {
      hash = served.hash;
      hash_dir = f.hash_dir;
      asset_version = assets;
      read_file = read_file;
      observed_paths = observed_paths;
      read_observations = read_observations;
    };
    ca_port = f.page_port + 1;
    ca_body = ca_answer a.der;
    files = a.files;
  }

  unfoldable pub lab_main :
      Flags
      → Option (KeyPair c)
      → Files
      → Draw c
      → Draw c
      → Writes
      → Draw c
      → Bytes
      → (Bytes → Option Bytes)
      → List Bytes
      → (List (Option Bytes) → Bytes → List ObservedEvent)
      → Result Started
  unfolding choose_certs
  lab_main f loaded files wt ca w leaf assets read_file observed_paths read_observations = do
    made ← choose_certs c f.mode f.sans loaded files wt ca w leaf
    ok (open_servers f assets read_file observed_paths read_observations made)
