-- ===== src/Pages/Reading.antt =====
-- The files that the handler of the page server reads.
use semantic_echo.Base.{
  map, ℕ, ◌<◌, ◌^◌, ◌≡◌, refl, List, [], ◌∷◌, Option, none, some, arith, inl, inr, Option-cases,
}
use semantic_echo.Base.Text.{Bytes, codes}
use semantic_echo.Strings.{cut_prefix}
use semantic_echo.Strconv.{parse_uint16, scan_digits}
use semantic_echo.Client.{client_address}
use semantic_echo.Pages.Specs.{PageSpec, page_specs}
use semantic_echo.Pages.{
  Site, PageRequest, render_page, render_from, hash_file, serve_published, published_port,
  page_route, serve_page,
}
use mathlib.Core.List.{Memᴰ}
use semantic_echo.Base.{ap}

parse_uint16-lt : (s : Bytes) (p : ℕ) → parse_uint16 s ≡ some p → p < 2 ^ 16
unfolding parse_uint16
parse_uint16-lt s p e = elim (Option-cases (scan_digits s)) [
  | inl none_read ↦ absurd (ground (arith, rw (none_read, parse_uint16) at e))
  | inr (n, read) ↦ ground arith
]

published_port-lt : (path : Bytes) (p : ℕ) → published_port path ≡ some p → p < 2 ^ 16
unfolding published_port
published_port-lt path p e = elim (Option-cases (cut_prefix (codes "/hash") path)) [
  | inl other ↦ absurd (ground (arith, rw (other, published_port) at e))
  | inr (suffix, cut) ↦ parse_uint16-lt suffix p (rw (cut, published_port) at e)
]

module _ (site : Site) (read : Bytes → Option Bytes) where
  abbrev other : Site
  other = record site { read_file = read }

  render_from-other :
      (specs : List PageSpec) (route : Bytes)
      → render_from specs other route ≡ render_from specs site route
  unfolding render_from
  render_from-other specs route = refl

  render_page-other : (route : Bytes) → render_page other route ≡ render_page site route
  unfolding render_page
  render_page-other route = render_from-other page_specs route

  serve_published-other :
      (path : Bytes) (port : Option ℕ)
      → ((p : ℕ)
          → port ≡ some p
          → read (hash_file site.hash_dir p) ≡ site.read_file (hash_file site.hash_dir p))
      → serve_published other path port ≡ serve_published site path port
  unfolding serve_published
  serve_published-other path none same = render_page-other (page_route path)
  serve_published-other path (some p) same = rw (same p refl) refl

  map-other :
      (paths : List Bytes)
      → ((path : Bytes) → Memᴰ path paths → read path ≡ site.read_file path)
      → map read paths ≡ map site.read_file paths
  map-other [] same = refl
  map-other (path ∷ paths) same =
      rw (same path (Memᴰ.head refl), map-other paths (λ p m. same p (Memᴰ.tail m))) refl

  -- The handler reads no file but the published hashes and the files of the observers: if two readers
  -- of files agree on "<hashdir>/hash<p>" for every p below 2 ^ 16, written in decimal, and on the
  -- paths that `Glob` finds for the observers, then every request is answered alike with both,
  -- whatever its path.
  pub serve_page-read_file :
      (r : PageRequest)
      → ((p : ℕ)
          → p < 2 ^ 16
          → read (hash_file site.hash_dir p) ≡ site.read_file (hash_file site.hash_dir p))
      → ((path : Bytes) → Memᴰ path site.observed_paths → read path ≡ site.read_file path)
      → serve_page (record site { read_file = read }) r ≡ serve_page site r
  unfolding serve_page
  serve_page-read_file r same same' =
      let root = render_page-other (codes "/") in
      let published =
        serve_published-other r.path (published_port r.path)
          (λ p e. same p (published_port-lt r.path p e)) in
      let observed_alike =
        ap (λ (files : List (Option Bytes)). site.read_observations files (client_address r.client))
          (map-other site.observed_paths same') in
      ground (arith, root, published, observed_alike)
