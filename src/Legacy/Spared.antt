-- ===== src/Legacy/Spared.antt =====
-- What the clients of a boot of the legacy program may cost: its sessions against their ports.
use semantic_echo.Base.{
  ℕ, ◌≤◌, ◌<◌, ◌^◌, ◌≡◌, refl, Bool, true, false, List, [], ◌∷◌, Option, map, ◌==◌, if◌then◌else◌,
  arith, sum_of, All, All-mem, Bool-cases, inl, inr,
}
use mathlib.Core.List.{Memᴰ}
use semantic_echo.Base.Text.{Bytes}
use semantic_echo.Files.{Files}
use semantic_echo.Certs.{Crypto, ok, Draw, KeyPair}
use semantic_echo.Endpoint.{Listener}
use semantic_echo.Session.{Session, session_echo_budget, probe_echo_budget, limits_for}
use semantic_echo.Server.{live, Server, Reach}
use semantic_echo.Server.Holding.{holds, probes}
use semantic_echo.Server.Slots.{held-le-cap}
use semantic_echo.Server.Sessions.{session_promises}
use semantic_echo.Server.Ports.{Serves, live_among}
use semantic_echo.Legacy.{Flags, Started, legacy_main}
use semantic_echo.Legacy.Publishing.{legacy_main-IsServed}

-- The ports of the flags, the last for the flow-control probe.
abbrev pub ports : Flags → List ℕ
ports f = f.port ∷ f.pinned_port ∷ f.cert_sign_port ∷ f.alt_port ∷ f.probe_port ∷ []

-- A listener of the boot: its port, and the flag that this port gives it.
abbrev Known : Flags → Listener → Type 0
Known f l = Memᴰ l.port (ports f) × (l.probe ≡ true → l.port ≡ f.probe_port)

five-Known :
    (f : Flags)
    → All (Known f) (
        record { port = f.port; probe = false }
        ∷ record { port = f.pinned_port; probe = false }
        ∷ record { port = f.cert_sign_port; probe = false }
        ∷ record { port = f.alt_port; probe = false }
        ∷ record { port = f.probe_port; probe = true }
        ∷ [])
five-Known f = (
  (Memᴰ.head refl, λ e. cc),
  (
    (Memᴰ.tail (Memᴰ.head refl), λ e. cc),
    (
      (Memᴰ.tail (Memᴰ.tail (Memᴰ.head refl)), λ e. cc),
      (
        (Memᴰ.tail (Memᴰ.tail (Memᴰ.tail (Memᴰ.head refl))), λ e. cc),
        ((Memᴰ.tail (Memᴰ.tail (Memᴰ.tail (Memᴰ.tail (Memᴰ.head refl)))), λ e. refl), tt),
      ),
    ),
  ),
)

-- What a session on a port may give its peer.
abbrev pub allowance : Flags → ℕ → ℕ
allowance f port = if port == f.probe_port then probe_echo_budget else session_echo_budget

allowed : (f : Flags) (l : Listener) → Known f l → (limits_for l.probe).budget ≤ allowance f l.port
allowed f l (on, probes_only) = elim (Bool-cases l.probe) [
  | inl probe ↦ rw probe (ground (arith, probes_only probe))
  | inr plain ↦ rw plain (ground arith)
]

module _ (c : Crypto) where
  abbrev pub listeners_of : Started c → List Listener
  listeners_of m = map (λ s. s.listener) m.listeners

  listeners_of-Known :
      (f : Flags) (loaded : Option (KeyPair c)) (files : Files) (one two : Draw c)
      (written : Bool × Bool × Bool) (m : Started c) (l : Listener)
      → legacy_main c f loaded files one two written ≡ ok m
      → Memᴰ l (listeners_of m)
      → Known f l
  listeners_of-Known f loaded files one two written m l e among =
      let (pinned, cert_sign, (chain, found, five)) =
        legacy_main-IsServed c f loaded files one two written m e in
      All-mem (Known f) (listeners_of m) l among (rw five (five-Known f))

  -- In every state that the process of a boot of the legacy program can come to through its own
  -- listeners, a session that received fewer than 2 ^ 63 bytes is on a port of the flags and gave its
  -- peer at most 1 MiB, or 64 MiB on the port of the probe, and its address holds at most four slots,
  -- one of them at most through the listener of the probe.
  pub legacy_main_spared :
      (f : Flags) (loaded : Option (KeyPair c)) (files : Files) (one two : Draw c)
      (written : Bool × Bool × Bool) (m : Started c) (now : ℕ) (s : Server) (l : Listener)
      (address : Bytes) (t : Session) (r : Reach now s)
      → legacy_main c f loaded files one two written ≡ ok m
      → Serves (listeners_of m) r
      → Memᴰ (live l address t) s.visits
      → t.shared.received < 2 ^ 63
      → Memᴰ l.port (ports f)
        × (t.shared.sent ≤ allowance f l.port)
        × (sum_of (holds address) s.visits ≤ 4)
        × (sum_of (probes address) s.visits ≤ 1)
  legacy_main_spared f loaded files one two written m now s l address t r boot on among fits =
      let known =
        listeners_of-Known f loaded files one two written m l boot
          (live_among (listeners_of m) r (live l address t) on among) in
      let promised = session_promises now s l address t r among fits in
      let (held, few, fewer) = held-le-cap now s address r in
      (known.0, omega (arith, promised.0, allowed f l known), few, fewer)
