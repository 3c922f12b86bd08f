-- ===== src/Lab/Spared.antt =====
-- What the clients of a boot of the lab may cost: its sessions on its three ports.
use semantic_echo.Base.{
  ℕ, ◌≤◌, ◌<◌, ◌^◌, ◌≡◌, refl, false, List, [], ◌∷◌, Option, map, sum_of, All, All-mem,
}
use mathlib.Core.List.{Memᴰ}
use mathlib.Core.Path.{subst}
use semantic_echo.Base.Text.{Bytes}
use semantic_echo.Files.{Files}
use semantic_echo.Observe.{ObservedEvent}
use semantic_echo.Certs.{Crypto, ok, Draw, KeyPair}
use semantic_echo.Certs.Inversion.{bind_ok, ok_injective}
use semantic_echo.Certs.Authority.{Writes, Authority}
use semantic_echo.Certs.Modes.{Served, choose_certs}
use semantic_echo.Endpoint.{Listener}
use semantic_echo.Session.{Session, session_echo_budget}
use semantic_echo.Server.{live, Server, Reach}
use semantic_echo.Server.Holding.{holds}
use semantic_echo.Server.Slots.{held-le-cap}
use semantic_echo.Server.Sessions.{session_promises}
use semantic_echo.Server.Ports.{Serves, live_among}
use semantic_echo.Lab.{Flags, Started, open_servers, lab_main}

abbrev pub ports : Flags → List ℕ
ports f = f.port ∷ 443 ∷ f.trio_port ∷ []

abbrev Known : Flags → Listener → Type 0
Known f l = Memᴰ l.port (ports f) × (l.probe ≡ false)

module _ (c : Crypto) (f : Flags) (loaded : Option (KeyPair c)) (files : Files) (ca : Draw c)
    (w : Writes) (wt leaf : Draw c) (assets : Bytes) (read_file : Bytes → Option Bytes)
    (observed_paths : List Bytes)
    (read_observations : List (Option Bytes) → Bytes → List ObservedEvent) where
  abbrev pub listeners_of : Started c → List Listener
  listeners_of m = map (λ e. e.listener) m.endpoints

  listeners_of-Known :
      (m : Started c)
      → lab_main c f loaded files wt ca w leaf assets read_file observed_paths read_observations
        ≡ ok m
      → All (Known f) (listeners_of m)
  unfolding lab_main
  listeners_of-Known m e =
      let start = open_servers c f assets read_file observed_paths read_observations in
      let (made, chosen, rest) =
        bind_ok (choose_certs c f.mode f.sans loaded files wt ca w leaf)
          (λ (made : Served c × Authority c). ok (start made)) m e in
      subst (λ m'. All (Known f) (listeners_of m')) (ok_injective rest)
        (
          (Memᴰ.head refl, refl),
          (
            (Memᴰ.tail (Memᴰ.head refl), refl),
            ((Memᴰ.tail (Memᴰ.tail (Memᴰ.head refl)), refl), tt),
          ),
        )

  -- In every state that the process of a boot of the lab can come to through its own listeners, a session
  -- that received fewer than 2 ^ 63 bytes is on port 443 or on one of the two ports of the flags for
  -- endpoints, gave its peer at most 1 MiB, and its address holds at most four slots.
  pub lab_main_spared :
      (m : Started c) (now : ℕ) (s : Server) (l : Listener) (address : Bytes) (t : Session)
      (r : Reach now s)
      → lab_main c f loaded files wt ca w leaf assets read_file observed_paths read_observations
        ≡ ok m
      → Serves (listeners_of m) r
      → Memᴰ (live l address t) s.visits
      → t.shared.received < 2 ^ 63
      → Memᴰ l.port (ports f)
        × (t.shared.sent ≤ session_echo_budget)
        × (sum_of (holds address) s.visits ≤ 4)
  lab_main_spared m now s l address t r boot on among fits =
      let (port_known, plain) =
        All-mem (Known f) (listeners_of m) l
          (live_among (listeners_of m) r (live l address t) on among) (listeners_of-Known m boot) in
      let promised = session_promises now s l address t r among fits in
      let (held, few, fewer) = held-le-cap now s address r in
      (port_known, (rw plain at promised).0, few)
