-- ===== src/Pages/Access.antt =====
-- What the page server refuses.
use semantic_echo.Base.{◌≡◌, [], ◌∷◌, ◌++◌, Option, some, ◌⊎◌}
use semantic_echo.Base.Text.{Bytes, codes}
use semantic_echo.Pages.{Response, empty}

-- "/auth", or something below it.
abbrev pub IsBehindAuth : Bytes → Type 0
IsBehindAuth path = (path ≡ codes "/auth") ⊎ ((rest : Bytes) × (path ≡ codes "/auth/" ++ rest))

-- The credentials of the fixture.
abbrev pub IsFixture : Option (Bytes × Bytes) → Type 0
IsFixture given = given ≡ some (codes "retro", codes "retro")

abbrev pub challenge : Response
challenge = record {
  status = 401;
  headers = (codes "WWW-Authenticate", codes "Basic realm=\"echo\"") ∷ [];
  body = empty;
}
