-- ===== src/Host/Update/Written.antt =====
-- The host that an update leaves.
use pdai_server_panel.Common.{ℕ, suc, true, none, List, [], ◌∷◌, ◌≡◌, All}
use pdai_server_panel.Text.{Text}
use pdai_server_panel.Model.{Host, Route, BasicAuth}
use pdai_server_panel.Caddy.Domain.Accepted.{IsDomain}
use pdai_server_panel.Caddy.Render.Lines.{is_plain}
use pdai_server_panel.Host.Request.{HostCreateRequest, build_host_domain_rows}
use pdai_server_panel.Host.Claim.Kept.{IsSound, AreDomains, domains-plain}
use pdai_server_panel.Host.Checks.{Library, check_values, check_request}
use pdai_server_panel.Host.Rows.{first_or, others, updated, cleared}
use pdai_server_panel.Host.Update.Inputs.{
  or_else-none, directive_error-none, block_error-none, check_value-plain, string_or_default-plain,
  check_upstreams-plain, with_ids-plain, check_ranges-plain, check_headers-plain,
  full_block-Balanced, PlainAuths,
}

pub rows-AreDomains :
    (id i : ℕ) (ds : List Text) → All IsDomain ds → AreDomains (build_host_domain_rows id i ds)
unfolding build_host_domain_rows
rows-AreDomains id i [] h = tt
rows-AreDomains id i (d ∷ ds) (h, hs) = (h, rows-AreDomains id (suc i) ds hs)

first_or-IsDomain :
    (d : Text) (ds : List Text) → IsDomain d → All IsDomain ds → IsDomain (first_or d ds)
first_or-IsDomain d [] v h = v
first_or-IsDomain d (t ∷ ts) v (h, hs) = h

pub others-All : (ds : List Text) → All IsDomain ds → All IsDomain (others ds)
others-All [] h = tt
others-All (d ∷ ds) (h, hs) = hs

-- The fields that one loop checks.
pub record PlainValues (req : HostCreateRequest) : Type 0 where
  pub redirect : is_plain req.redirect_url ≡ true
  pub root : is_plain req.root_path ≡ true
  pub error_pages : is_plain req.error_page_path ≡ true
  pub fastcgi : is_plain req.php_fastcgi ≡ true
  pub index : is_plain req.index_files ≡ true
  pub origins : is_plain req.cors_origins ≡ true
  pub methods : is_plain req.cors_methods ≡ true
  pub headers : is_plain req.cors_headers ≡ true

pub check_values-PlainValues : (req : HostCreateRequest) → check_values req ≡ none → PlainValues req
unfolding check_values
check_values-PlainValues req h =
    let (a, b) = or_else-none _ _ h in
    let (c, d) = or_else-none _ _ b in
    let (e, f) = or_else-none _ _ d in
    let (g, i) = or_else-none _ _ f in
    let (j, k) = or_else-none _ _ i in
    let (l, m) = or_else-none _ _ k in
    let (n, o) = or_else-none _ _ m in
    record {
      redirect = check_value-plain _ req.redirect_url a;
      root = check_value-plain _ req.root_path c;
      error_pages = check_value-plain _ req.error_page_path e;
      fastcgi = check_value-plain _ req.php_fastcgi g;
      index = check_value-plain _ req.index_files j;
      origins = check_value-plain _ req.cors_origins l;
      methods = check_value-plain _ req.cors_methods n;
      headers = check_value-plain _ req.cors_headers o;
    }

module _ (lib : Library) where
  -- What an accepted request becomes.
  pub written-IsSound :
      (domains : List Text) (req : HostCreateRequest) (host : Host) (auths : List BasicAuth)
      (routes : List Route)
      → IsSound host
      → All IsDomain domains
      → check_request lib domains req host ≡ none
      → PlainAuths auths
      → All (λ (r : Route). is_plain r.path ≡ true) routes
      → IsSound (record (updated lib domains req host auths) { routes = routes })
  unfolding check_request updated
  written-IsSound domains req host auths routes (r, s) v h a p =
      let (ups, h1) = or_else-none _ _ h in
      let (ranges, h2) = or_else-none _ _ h1 in
      let (dirs, h3) = or_else-none _ _ h2 in
      let (block, h4) = or_else-none _ _ h3 in
      let (vals, h5) = or_else-none _ _ h4 in
      let (heads, h6) = or_else-none _ _ h5 in
      let values = check_values-PlainValues req vals in
      let more = rows-AreDomains host.id 0 (others domains) (others-All domains v) in
      (
        record {
          domain = first_or-IsDomain host.domain domains s.primary v;
          others = domains-plain _ more;
          cert = r.cert;
          key = r.key;
          redirect =
              string_or_default-plain req.redirect_url host.redirect_url values.redirect r.redirect;
          root = values.root;
          index = values.index;
          fastcgi = values.fastcgi;
          error_pages = values.error_pages;
          origins = values.origins;
          methods = values.methods;
          headers = values.headers;
          addresses =
              with_ids-plain lib 0 _ (check_upstreams-plain lib host.id 0 req.upstreams ups);
          paths = p;
          custom = check_headers-plain host.id 0 req.custom_headers heads;
          ranges = check_ranges-plain lib host.id 0 req.access_rules ranges;
          auths = a;
          directives = directive_error-none _ dirs;
          full =
              full_block-Balanced lib.wide domains req.full_caddy_block (block_error-none _ block);
        },
        record { primary = first_or-IsDomain host.domain domains s.primary v; more = more },
      )

  pub cleared-IsSound : (h : Host) → IsSound h → IsSound (cleared h)
  cleared-IsSound h (r, s) = (
    record {
      domain = r.domain;
      others = tt;
      cert = r.cert;
      key = r.key;
      redirect = r.redirect;
      root = r.root;
      index = r.index;
      fastcgi = r.fastcgi;
      error_pages = r.error_pages;
      origins = r.origins;
      methods = r.methods;
      headers = r.headers;
      addresses = tt;
      paths = r.paths;
      custom = tt;
      ranges = tt;
      auths = tt;
      directives = r.directives;
      full = r.full;
    },
    record { primary = s.primary; more = tt },
  )
