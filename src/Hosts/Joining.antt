-- ===== src/Hosts/Joining.antt =====
-- The flag that `strings.Join(hosts, ",")` writes, read back by `splitComma`.
use semantic_echo.Base.{
  ◌≡◌, ◌≢◌, refl, sym, ap, ◌∙◌, false, List, [], ◌∷◌, ◌++◌, ◌==◌, arith, append_assoc, append-nil,
  All,
}
use semantic_echo.Base.Text.{Bytes}
use semantic_echo.Strings.{flush}
use semantic_echo.Hosts.{comma, split_comma}
use semantic_echo.Hosts.Splitting.{pieces, split_comma-pieces}

abbrev pub join : List Bytes → Bytes
join [] = []
join (h ∷ []) = h
join (h ∷ h' ∷ hs) = h ++ comma ∷ join (h' ∷ hs)

-- A text with no comma in it, and something in it.
abbrev pub IsName : Bytes → Type 0
IsName h = (h ≢ []) × All (λ c. c ≢ comma) h

pieces_name : (h cur s : Bytes) → All (λ c. c ≢ comma) h → pieces cur (h ++ s) ≡ pieces (cur ++ h) s
unfolding pieces
pieces_name [] cur s n = rw (append-nil cur) refl
pieces_name (c ∷ h) cur s (n, ns) =
    let passes : (c == comma) ≡ false = ground arith in
    rw passes (
      pieces_name h (cur ++ c ∷ []) s ns
      ∙ ap (λ (t : Bytes). pieces t s) (append_assoc cur (c ∷ []) h))

flush_name : (h : Bytes) (ps : List Bytes) → h ≢ [] → flush h ps ≡ h ∷ ps
flush_name [] ps n = absurd (n refl)
flush_name (c ∷ h) ps n = refl

pieces-join : (hs : List Bytes) → All IsName hs → pieces [] (join hs) ≡ hs
unfolding pieces
pieces-join [] n = refl
pieces-join (h ∷ []) ((some_, plain), rest) =
    ap (pieces []) (sym (append-nil h)) ∙ pieces_name h [] [] plain ∙ flush_name h [] some_
pieces-join (h ∷ h' ∷ hs) ((some_, plain), rest) =
    pieces_name h [] (comma ∷ join (h' ∷ hs)) plain
    ∙ flush_name h (pieces [] (join (h' ∷ hs))) some_
    ∙ ap (◌∷◌ h) (pieces-join (h' ∷ hs) rest)

-- The names of a certificate are those that the flag lists: joined with commas, hosts with something
-- in them and no comma come back from `splitComma` as they were, in order.
pub split_comma-join : (hs : List Bytes) → All IsName hs → split_comma (join hs) ≡ hs
split_comma-join hs n = split_comma-pieces (join hs) ∙ pieces-join hs n
