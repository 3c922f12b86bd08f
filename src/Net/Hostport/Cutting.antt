-- ===== src/Net/Hostport/Cutting.antt =====
-- Where "host:port" and "[host]:port" are cut.
use semantic_echo.Base.{
  ℕ, suc, ◌≡◌, ◌≢◌, refl, false, [], ◌∷◌, ◌++◌, none, some, All, arith, length, drop, take-length,
}
use semantic_echo.Base.Text.{Bytes}
use semantic_echo.Net.{colon, contains}
use semantic_echo.Net.Hostport.{index, last_index, cut, split_at, split_host_port}

abbrev pub Lacks : ℕ → Bytes → Type 0
Lacks c = All (λ x. x ≢ c)

pub contains-Lacks : (c : ℕ) (s : Bytes) → Lacks c s → contains c s ≡ false
unfolding contains
contains-Lacks c [] h = refl
contains-Lacks c (x ∷ s) h = ground (arith, contains-Lacks c s)

contains-append :
    (c : ℕ) (s t : Bytes)
    → contains c s ≡ false
    → contains c t ≡ false
    → contains c (s ++ t) ≡ false
unfolding contains
contains-append c [] t h k = k
contains-append c (x ∷ s) t h k = ground (arith, contains-append c s t)

last_index_lacking : (c : ℕ) (s : Bytes) → Lacks c s → last_index c s ≡ none
unfolding last_index
last_index_lacking c [] h = refl
last_index_lacking c (x ∷ s) h = ground (arith, last_index_lacking c s)

last_index-append : (c : ℕ) (s t : Bytes) → Lacks c t → last_index c (s ++ c ∷ t) ≡ some (length s)
unfolding last_index
last_index-append c [] t h = ground (arith, last_index_lacking c t h)
last_index-append c (x ∷ s) t h = rw (last_index-append c s t h)

index-append : (c : ℕ) (s t : Bytes) → Lacks c s → index c (s ++ c ∷ t) ≡ some (length s)
unfolding index
index-append c [] t h = ground arith
index-append c (x ∷ s) t h = ground (arith, index-append c s t)

-- A text with neither colon nor bracket.
pub record IsPlain (s : Bytes) : Type 0 where
  pub no_colon : Lacks colon s
  pub no_open : Lacks b'[' s
  pub no_close : Lacks b']' s

last_index_behind :
    (c x : ℕ) (s t : Bytes) → Lacks c t → last_index c (s ++ x ∷ c ∷ t) ≡ some (suc (length s))
unfolding last_index
last_index_behind c x [] t h = ground (arith, last_index_lacking c t h)
last_index_behind c x (y ∷ s) t h = rw (last_index_behind c x s t h)

drop_past : (x : ℕ) (s t : Bytes) → drop (suc (length s)) (s ++ x ∷ t) ≡ t
drop_past x [] t = refl
drop_past x (y ∷ s) t = drop_past x s t

drop_two : (x y : ℕ) (s t : Bytes) → drop (suc (suc (length s))) (s ++ x ∷ y ∷ t) ≡ t
drop_two x y [] t = refl
drop_two x y (z ∷ s) t = drop_two x y s t

-- What `cut` is asked at the last colon.
cut_at :
    (text host after_open after_close port : Bytes) (i : ℕ)
    → contains b'[' after_open ≡ false
    → contains b']' after_close ≡ false
    → drop (suc i) text ≡ port
    → cut text host after_open after_close i ≡ some (host, port)
unfolding cut
cut_at text host after_open after_close port i h k e = ground arith

IsPlain-append :
    (s port : Bytes)
    → IsPlain s
    → IsPlain port
    → (contains b'[' (s ++ colon ∷ port) ≡ false) × (contains b']' (s ++ colon ∷ port) ≡ false)
unfolding contains
IsPlain-append s port h p = (
  contains-append b'[' s (colon ∷ port) (contains-Lacks b'[' s h.no_open)
      (contains-Lacks b'[' port p.no_open),
  contains-append b']' s (colon ∷ port) (contains-Lacks b']' s h.no_close)
      (contains-Lacks b']' port p.no_close),
)

-- "host:port", cut before the port.
pub split_plain :
    (c : ℕ) (host port : Bytes)
    → IsPlain (c ∷ host)
    → IsPlain port
    → split_host_port ((c ∷ host) ++ colon ∷ port) ≡ some (c ∷ host, port)
unfolding split_host_port split_at
split_plain c host port h p =
    let whole = c ∷ (host ++ colon ∷ port) in
    let (opens, closes) = IsPlain-append (c ∷ host) port h p in
    let cuts =
      cut_at whole (c ∷ host) whole whole port (suc (length host)) opens closes
        (drop_past colon host port) in
    let clear = contains-Lacks colon (c ∷ host) h.no_colon in
    rw
      (
        last_index-append colon (c ∷ host) port p.no_colon,
        split_host_port,
        take-length host (colon ∷ port),
      )
      (ground (arith, cuts, clear, h.no_open.0))

last_in_brackets :
    (host port : Bytes)
    → Lacks colon port
    → last_index colon (b'[' ∷ (host ++ b']' ∷ colon ∷ port)) ≡ some (suc (suc (length host)))
last_in_brackets host port h = last_index_behind colon b']' (b'[' ∷ host) port h

-- "[host]:port", cut before the port; the host may hold colons.
pub split_bracketed :
    (host port : Bytes)
    → Lacks b'[' host
    → Lacks b']' host
    → IsPlain port
    → split_host_port (b'[' ∷ (host ++ b']' ∷ colon ∷ port)) ≡ some (host, port)
unfolding split_host_port split_at
split_bracketed host port h k p =
    let whole = b'[' ∷ (host ++ b']' ∷ colon ∷ port) in
    let opens : contains b'[' (host ++ b']' ∷ colon ∷ port) ≡ false =
      contains-append b'[' host (b']' ∷ colon ∷ port) (contains-Lacks b'[' host h)
        (unfold contains in ground (arith, contains-Lacks b'[' port p.no_open)) in
    let closes : contains b']' (colon ∷ port) ≡ false =
      unfold contains in ground (arith, contains-Lacks b']' port p.no_close) in
    let cuts =
      cut_at whole host (host ++ b']' ∷ colon ∷ port) (colon ∷ port) port (suc (suc (length host)))
        opens closes (drop_two b']' colon host port) in
    rw (last_in_brackets host port p.no_colon, split_host_port)
      (rw
        (
          index-append b']' host (colon ∷ port) k,
          take-length host (b']' ∷ colon ∷ port),
          drop_past b']' host (colon ∷ port),
        )
        (ground (arith, cuts)))
