-- ===== src/Client.antt =====
-- `clientAddress` of observe.go: the address that a page request is answered for.
pub mod Agreement
pub mod Proxied
use semantic_echo.Base.{Bool, List, [], ◌∷◌, Option, none, some, if◌then◌else◌}
use semantic_echo.Base.Text.{Bytes}
use semantic_echo.Strings.{split, trim_space}
use semantic_echo.Address.{normalize_address, address_of}

-- What `clientAddress` reads of an http.Request: two headers, empty if they are not there.
pub record Request : Type 0 where
  pub fly_client_ip : Bytes
  pub x_forwarded_for : Bytes
  pub remote_addr : Bytes

-- `strings.Split(forwarded, ",")[0]`
unfoldable pub first_piece : Bytes → Bytes
unfolding split
first_piece s = elim (split b',' s) [ [] ↦ [] | piece ∷ _ ↦ piece ]

unfoldable pub client_address : Request → Bytes
unfolding first_piece
client_address r = elim r.fly_client_ip [
  | _ ∷ _ ↦ normalize_address r.fly_client_ip
  | [] ↦ elim r.x_forwarded_for [
    | _ ∷ _ ↦ normalize_address (trim_space (first_piece r.x_forwarded_for))
    | [] ↦ address_of r.remote_addr
  ]
]
