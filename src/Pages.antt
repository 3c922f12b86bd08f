-- ===== src/Pages.antt =====
-- `renderPage` of pages.go, and the handler of the page server in main.go: routes, Basic auth, cache headers, the
-- published hashes and the observations.
-- Rendering belongs to html/template and files to the operating system: a page is named by its
-- template and data, and what `os.ReadFile` returns is an argument.
pub mod Specs
pub mod Serving
pub mod Reading
pub mod Access
pub mod Assets
use semantic_echo.Base.{
  ℕ, ◌<◌, ◌^◌, ◌≡◌, Bool, true, false, not, ◌&&◌, ◌||◌, List, [], ◌∷◌, ◌++◌, Option, none, some,
  map, if◌then◌else◌,
}
use semantic_echo.Base.Text.{Bytes, codes, bytes_eq}
use semantic_echo.Strings.{has_prefix, has_suffix, cut_prefix, trim_suffix}
use semantic_echo.Strconv.{print_nat, parse_uint16}
use semantic_echo.Observe.{ObservedEvent}
use semantic_echo.Pages.Specs.{Page, PageSpec, page_specs, spec_of, parse_pages, template_of}
use semantic_echo.Client
use semantic_echo.Client.{client_address}

abbrev pub content_updated : Bytes
content_updated = codes "08-02-2026"

pub data Body : Type 0 where
  empty : Body
  text : Bytes → Body
  rendered : (files : List Bytes) (page : Page) → Body
  asset : (path : Bytes) → Body
  observations : (address : Bytes) (events : List ObservedEvent) → Body

pub record Response : Type 0 where
  pub status : ℕ
  pub headers : List (Bytes × Bytes)
  pub body : Body

-- What the handler closes over, and what it finds on the disk: `os.ReadFile`, none when it fails, for
-- the published hashes and for the files of the observers, the paths that `Glob` finds for these, and
-- what `readObservations` makes of their contents.
pub record Site : Type 0 where
  pub hash : Bytes
  pub hash_dir : Bytes
  pub asset_version : Bytes
  pub read_file : Bytes → Option Bytes
  pub observed_paths : List Bytes
  pub read_observations : List (Option Bytes) → Bytes → List ObservedEvent

-- The path, the credentials of Basic auth, the query's `v`, and what names the client.
pub record PageRequest : Type 0 where
  pub path : Bytes
  pub basic_auth : Option (Bytes × Bytes)
  pub v : Bytes
  pub client : Client.Request

-- `published, _ := os.ReadFile(...)`
abbrev pub or_empty : Option Bytes → Bytes
or_empty none = []
or_empty (some b) = b

abbrev pub answer : Body → List (Bytes × Bytes) → Response
answer body headers = record { status = 200; headers = headers; body = body }

abbrev pub content_type : Bytes → Bytes × Bytes
content_type value = (codes "Content-Type", value)

-- `renderPage` for given specs. A route without a template has a nil one, on which
-- `ExecuteTemplate` panics: none.
unfoldable pub render_from : List PageSpec → Site → Bytes → Option Response
unfolding spec_of parse_pages template_of
render_from specs site route = elim (template_of (parse_pages specs) route) [
  | none ↦ none
  | some files ↦ elim (spec_of specs route) [
    | none ↦ none
    | some s ↦
        let filled = record s.page { updated = content_updated; version = site.asset_version } in
        some (answer (rendered files filled) (content_type (codes "text/html; charset=utf-8") ∷ []))
  ]
]

unfoldable pub render_page : Site → Bytes → Option Response
unfolding render_from
render_page = render_from page_specs

abbrev auth_user : Bytes
auth_user = codes "retro"

abbrev auth_pass : Bytes
auth_pass = codes "retro"

abbrev pub unauthorized : Response
unauthorized = record {
  status = 401;
  headers = (codes "WWW-Authenticate", codes "Basic realm=\"echo\"") ∷ [];
  body = empty;
}

abbrev pub asks_auth : Bytes → Bool
asks_auth path = bytes_eq path (codes "/auth") || has_prefix (codes "/auth/") path

-- `ok && user == authUser && pass == authPass`
abbrev pub authorized : Option (Bytes × Bytes) → Bool
authorized none = false
authorized (some (user, pass)) = bytes_eq user auth_user && bytes_eq pass auth_pass

abbrev pub cache_control : PageRequest → Bytes
cache_control r =
    if not (bytes_eq r.v []) || has_suffix (codes ".woff2") r.path
    then codes "public, max-age=31536000, immutable"
    else codes "public, max-age=300"

-- `fmt.Sprintf("%s/hash%d", *hashDir, p)`
abbrev pub hash_file : Bytes → ℕ → Bytes
hash_file dir p = dir ++ codes "/hash" ++ print_nat p

unfoldable pub published_port : Bytes → Option ℕ
unfolding cut_prefix parse_uint16
published_port path = elim (cut_prefix (codes "/hash") path) [
  | none ↦ none
  | some suffix ↦ parse_uint16 suffix
]

-- The route itself, if it has a page, and else the echo page.
unfoldable pub known_route : List PageSpec → Bytes → Bytes
unfolding spec_of
known_route specs route = elim (spec_of specs route) [ none ↦ codes "/" | some _ ↦ route ]

unfoldable pub page_route : Bytes → Bytes
unfolding trim_suffix known_route
page_route path =
    let trimmed = trim_suffix (codes "/") path in
    let route = if bytes_eq trimmed [] then codes "/" else trimmed in known_route page_specs route

-- The end of the handler: a published hash, or a page.
unfoldable pub serve_published : Site → Bytes → Option ℕ → Option Response
unfolding render_page page_route
serve_published site path none = render_page site (page_route path)
serve_published site path (some p) = some (
    answer (text (or_empty (site.read_file (hash_file site.hash_dir p))))
      (content_type (codes "text/plain") ∷ []))

-- The handler of the page server.
unfoldable pub serve_page : Site → PageRequest → Option Response
unfolding render_page published_port serve_published
serve_page site r =
    if asks_auth r.path
    then (if not (authorized r.basic_auth) then some unauthorized else render_page site (codes "/"))
    else if has_prefix (codes "/assets/") r.path
    then some (answer (asset r.path) ((codes "Cache-Control", cache_control r) ∷ []))
    else if bytes_eq r.path (codes "/hash")
    then some (answer (text site.hash) (content_type (codes "text/plain") ∷ []))
    else if bytes_eq r.path (codes "/observed")
    then some (
        answer
          (observations (client_address r.client) (
            site.read_observations (map site.read_file site.observed_paths)
              (client_address r.client)))
          (content_type (codes "application/json")
            ∷ (codes "Cache-Control", codes "no-store")
            ∷ []))
    else serve_published site r.path (published_port r.path)
