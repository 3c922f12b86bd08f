-- ===== src/Pages/Serving.antt =====
-- What the page server answers.
use semantic_echo.Base.{
  map, ℕ, ◌≡◌, refl, Bool, true, false, List, [], ◌∷◌, ◌++◌, Option, none, some, if◌then◌else◌,
  arith, inl, inr, Bool-cases, Option-cases,
}
use semantic_echo.Base.Text.{Bytes, codes, bytes_eq}
use semantic_echo.Strings.{has_prefix}
use semantic_echo.Client.{client_address}
use semantic_echo.Pages.Specs.{Page, PageSpec, page_specs, spec_of, parse_pages, template_of}
use semantic_echo.Pages.{
  rendered, Response, Site, PageRequest, render_page, render_from, content_updated, known_route,
  asks_auth, serve_published, published_port, page_route, serve_page, unauthorized, authorized,
  answer, content_type, text, asset, observations, cache_control,
}

-- The routes with a page are the routes with a template.
template_of-parse_pages :
    (specs : List PageSpec) (route : Bytes) (s : PageSpec)
    → spec_of specs route ≡ some s
    → (files : List Bytes) × (template_of (parse_pages specs) route ≡ some files)
unfolding spec_of parse_pages template_of
template_of-parse_pages [] route s e = absurd (ground arith)
template_of-parse_pages (x ∷ specs) route s e = elim (Bool-cases (bytes_eq x.route route)) [
  | inl here ↦ (codes "web/pages/layout.html" ∷ (codes "web/pages/" ++ x.file) ∷ [], rw here refl)
  | inr there ↦
      let (files, found) = template_of-parse_pages specs route s (rw (there, spec_of) at e) in
      (files, rw there found)
]

abbrev filled : Site → PageSpec → Page
filled site s = record s.page { updated = content_updated; version = site.asset_version }

-- The page of a route: its own template, filled with its own data.
abbrev pub Renders : List PageSpec → Site → Bytes → Option Response → Type 0
Renders specs site route answer =
    (s : PageSpec) × (files : List Bytes) × (headers : List (Bytes × Bytes)) × (spec_of specs route
      ≡ some s)
    × (template_of (parse_pages specs) route ≡ some files)
    × (answer
        ≡ some (record { status = 200; headers = headers; body = rendered files (filled site s) }))

render_from-Renders :
    (specs : List PageSpec) (site : Site) (route : Bytes) (s : PageSpec)
    → spec_of specs route ≡ some s
    → Renders specs site route (render_from specs site route)
unfolding render_from template_of-parse_pages
render_from-Renders specs site route s e =
    let (files, t) = template_of-parse_pages specs route s e in
    (
      s,
      files,
      (codes "Content-Type", codes "text/html; charset=utf-8") ∷ [],
      e,
      t,
      rw (t, render_from) (rw e refl),
    )

known_route_spec :
    (specs : List PageSpec) (root : PageSpec) (route : Bytes)
    → spec_of specs (codes "/") ≡ some root
    → (s : PageSpec) × (spec_of specs (known_route specs route) ≡ some s)
unfolding known_route
known_route_spec specs root route e = elim (Option-cases (spec_of specs route)) [
  | inl missing ↦ (root, rw (missing, known_route) e)
  | inr (s, found) ↦ (s, rw (found, known_route) found)
]

root_spec : (s : PageSpec) × (spec_of page_specs (codes "/") ≡ some s)
unfolding spec_of bytes_eq
root_spec = (_, refl)

render_known :
    (specs : List PageSpec) (root : PageSpec) (site : Site) (route : Bytes)
    → spec_of specs (codes "/") ≡ some root
    → Renders specs site
        (known_route specs route)
        (render_from specs site (known_route specs route))
render_known specs root site route e =
    let (s, found) = known_route_spec specs root route e in
    render_from-Renders specs site (known_route specs route) s found

abbrev pub Rendered : Site → Bytes → Option Response → Type 0
Rendered = Renders page_specs

render_page_route :
    (site : Site) (path : Bytes)
    → Rendered site (page_route path) (render_page site (page_route path))
unfolding page_route render_page
render_page_route site path = render_known page_specs root_spec.0 site _ root_spec.1

pub render_page_root : (site : Site) → Rendered site (codes "/") (render_page site (codes "/"))
unfolding render_page
render_page_root site = render_from-Renders page_specs site (codes "/") root_spec.0 root_spec.1

-- What the handler answers when it does not refuse.
abbrev pub Answered : Option Response → Type 0
Answered o = (a : Response) × (o ≡ some a) × (a.status ≡ 200)

pub Answered-Rendered :
    (site : Site) (route : Bytes) (o : Option Response) → Rendered site route o → Answered o
Answered-Rendered site route o (s, files, headers, found, known, e) = (_, e, refl)

Answered-if :
    (b : Bool) (a : Response) (o : Option Response)
    → a.status ≡ 200
    → Answered o
    → Answered (if b then some a else o)
Answered-if true a o e h = (a, refl, e)
Answered-if false a o e h = h

serve_published-Answered :
    (site : Site) (path : Bytes) (port : Option ℕ) → Answered (serve_published site path port)
unfolding serve_published
serve_published-Answered site path none =
    Answered-Rendered site (page_route path) _ (render_page_route site path)
serve_published-Answered site path (some p) = (_, refl, refl)

pub serve_page-Answered :
    (site : Site) (r : PageRequest) → asks_auth r.path ≡ false → Answered (serve_page site r)
unfolding serve_page
serve_page-Answered site r free = rw free (
    Answered-if (has_prefix (codes "/assets/") r.path)
      (answer (asset r.path) ((codes "Cache-Control", cache_control r) ∷ [])) _ refl
      (Answered-if (bytes_eq r.path (codes "/hash"))
        (answer (text site.hash) (content_type (codes "text/plain") ∷ [])) _ refl
        (Answered-if (bytes_eq r.path (codes "/observed"))
          (answer
            (observations (client_address r.client) (
              site.read_observations (map site.read_file site.observed_paths)
                (client_address r.client)))
            (content_type (codes "application/json")
              ∷ (codes "Cache-Control", codes "no-store")
              ∷ []))
          _ refl (serve_published-Answered site r.path (published_port r.path)))))

pub serve_page_right :
    (site : Site) (r : PageRequest)
    → asks_auth r.path ≡ true
    → authorized r.basic_auth ≡ true
    → Rendered site (codes "/") (serve_page site r)
unfolding serve_page
serve_page_right site r h right = rw (h, right) (render_page_root site)

pub serve_page_wrong :
    (site : Site) (r : PageRequest)
    → asks_auth r.path ≡ true
    → authorized r.basic_auth ≡ false
    → serve_page site r ≡ some unauthorized
unfolding serve_page
serve_page_wrong site r h wrong = rw (h, wrong) refl

-- Every request is answered: no path, credentials or headers make the handler panic, as it would on
-- a route without a template.
pub serve_page_total :
    (site : Site) (r : PageRequest) → (a : Response) × (serve_page site r ≡ some a)
serve_page_total site r = elim (Bool-cases (asks_auth r.path)) [
  | inl auth ↦ elim (Bool-cases (authorized r.basic_auth)) [
    | inl right ↦
        let (a, e, ok) =
          Answered-Rendered site (codes "/") (serve_page site r)
            (serve_page_right site r auth right) in
        (a, e)
    | inr wrong ↦ (unauthorized, serve_page_wrong site r auth wrong)
  ]
  | inr free ↦ let (a, e, ok) = serve_page-Answered site r free in (a, e)
]
