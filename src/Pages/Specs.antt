-- ===== src/Pages/Specs.antt =====
-- pages.go: the pages that have a route, and their templates.
use semantic_echo.Base.{List, [], ◌∷◌, ◌++◌, Option, none, some, if◌then◌else◌}
use semantic_echo.Base.Text.{Bytes, codes, bytes_eq}

-- The em dash of the titles.
abbrev dash : Bytes
dash = 0xE2 ∷ 0x80 ∷ 0x94 ∷ []

pub record Page : Type 0 where
  pub title : Bytes
  pub description : Bytes
  pub nav : Bytes
  pub updated : Bytes
  pub version : Bytes

pub record PageSpec : Type 0 where
  pub route : Bytes
  pub file : Bytes
  pub page : Page

abbrev echo_page : PageSpec
echo_page = record {
  route = codes "/";
  file = codes "echo.html";
  page = record {
    title = codes "WebTransport Echo";
    description =
        codes "A public WebTransport echo server and test client. Send datagrams and "
        ++ codes "streams and get them straight back, and see which endpoints your own "
        ++ codes "browser will establish a session against.";
    nav = codes "echo";
    updated = [];
    version = [];
  };
}

abbrev compat_page : PageSpec
compat_page = record {
  route = codes "/compat";
  file = codes "compat.html";
  page = record {
    title = codes "WebTransport compatibility " ++ dash ++ codes " Safari, iOS, Chrome and Firefox";
    description =
        codes "What each engine requires of a WebTransport server, what it silently "
        ++ codes "discards, and what breaks. Safari and iOS in detail, tested live "
        ++ codes "against a public echo.";
    nav = codes "compat";
    updated = [];
    version = [];
  };
}

abbrev probe_page : PageSpec
probe_page = record {
  route = codes "/probe";
  file = codes "probe.html";
  page = record {
    title = codes "WebTransport flow-control probe";
    description =
        codes "Push one connection past the byte and stream counts where WebKit "
        ++ codes "stops returning flow-control credit, and see where your browser "
        ++ codes "stalls. A live reproduction of WebKit bug 319818.";
    nav = codes "probe";
    updated = [];
    version = [];
  };
}

abbrev references_page : PageSpec
references_page = record {
  route = codes "/references";
  file = codes "references.html";
  page = record {
    title = codes "WebTransport references and sources";
    description =
        codes "Primary sources for every claim on this site: specifications and "
        ++ codes "drafts, WebKit and Chromium bug reports, and the measurements taken "
        ++ codes "against this host.";
    nav = codes "references";
    updated = [];
    version = [];
  };
}

abbrev apple_page : PageSpec
apple_page = record {
  route = codes "/exhibits/apple";
  file = codes "exhibit-apple.html";
  page = record {
    title = codes "Exhibit " ++ dash ++ codes " iOS 27 refuses valid WebTransport handshakes";
    description =
        codes "Two servers whose advertised h3 SETTINGS and QUIC transport "
        ++ codes "parameters match on every value compared. Safari on iOS 27 "
        ++ codes "establishes a session against one and refuses the other.";
    nav = [];
    updated = [];
    version = [];
  };
}

abbrev quic_go_page : PageSpec
quic_go_page = record {
  route = codes "/exhibits/quic-go";
  file = codes "exhibit-quicgo.html";
  page = record {
    title = codes "Exhibit " ++ dash ++ codes " quic-go and webtransport-go";
    description =
        codes "Three reproducible findings against webtransport-go and quic-go, each "
        ++ codes "testable live against a public echo.";
    nav = [];
    updated = [];
    version = [];
  };
}

abbrev pub page_specs : List PageSpec
page_specs = echo_page ∷ compat_page ∷ probe_page ∷ references_page ∷ apple_page ∷ quic_go_page ∷ []

-- `pageSpecs[route]`
unfoldable pub spec_of : List PageSpec → Bytes → Option PageSpec
spec_of [] route = none
spec_of (s ∷ specs) route = if bytes_eq s.route route then some s else spec_of specs route

-- `parsePages`: the templates by route, each the layout and the file of the page.
unfoldable pub parse_pages : List PageSpec → List (Bytes × List Bytes)
parse_pages [] = []
parse_pages (s ∷ specs) =
    (s.route, codes "web/pages/layout.html" ∷ (codes "web/pages/" ++ s.file) ∷ [])
    ∷ parse_pages specs

unfoldable pub template_of : List (Bytes × List Bytes) → Bytes → Option (List Bytes)
template_of [] route = none
template_of ((r, files) ∷ more) route =
    if bytes_eq r route then some files else template_of more route
