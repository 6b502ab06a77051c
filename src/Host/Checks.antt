-- ===== src/Host/Checks.antt =====
-- internal/service/host.go, `Update`: what a request is refused for. `Library` is what comes from
-- outside: Unicode's lower case and case folding, net's parsers, bcrypt, filepath.Join, the data
-- directory, the order and the ids that the database gives to rows, and whether the new
-- configuration can be applied.
use pdai_server_panel.Common.{
  ℕ, Bool, ◌||◌, ◌&&◌, Option, none, some, List, [], ◌∷◌, if◌then◌else◌, null,
}
use pdai_server_panel.Text.{Text, codes, text_eq}
use pdai_server_panel.Model.{Host, HostDomain, Upstream}
use pdai_server_panel.Caddy.Domain.{DomainError}
use pdai_server_panel.Caddy.Directives.{
  DirectiveError, sanitize_custom_directives, validate_caddy_value,
}
use pdai_server_panel.Caddy.SiteBlock.{BlockError, validate_full_caddy_block_for_domains}
use pdai_server_panel.Caddy.Upstream.{
  UpstreamError, RangeError, validate_upstream, validate_ip_range,
}
use pdai_server_panel.Host.Request.{
  HostCreateRequest, UpstreamInput, HeaderInput, AccessInput, string_or_default,
}

pub record Library : Type 0 where
  pub wide : ℕ → ℕ
  pub split_host_port : Text → Option (Text × Text)
  pub parse_cidr : Text → Bool
  pub parse_ip : Text → Bool
  pub hash_password : Text → Option Text
  pub order_upstreams : List Upstream → List Upstream
  pub fold : ℕ → ℕ
  pub order_domains : List HostDomain → List HostDomain
  pub new_id : ℕ → ℕ
  pub new_host_id : List Host → ℕ
  pub data_dir : Text
  pub join_path : List Text → Text
  pub apply_ok : Bool

pub data HostError : Type 0 where
  not_found config_failed redirect_url_required upstream_required root_path_required : HostError
  invalid_domain : DomainError → HostError
  domain_exists : Text → HostError
  invalid_upstream : UpstreamError → HostError
  invalid_range : RangeError → HostError
  invalid_directives : DirectiveError → HostError
  invalid_block : BlockError → HostError
  invalid_value invalid_type hash_failed : Text → HostError

abbrev pub or_else : Option HostError → Option HostError → Option HostError
or_else none b = b
or_else (some e) b = some e

abbrev pub upstream_error : Option UpstreamError → Option HostError
upstream_error none = none
upstream_error (some e) = some (invalid_upstream e)

abbrev pub range_error : Option RangeError → Option HostError
range_error none = none
range_error (some e) = some (invalid_range e)

abbrev pub directive_error : Option DirectiveError → Option HostError
directive_error none = none
directive_error (some e) = some (invalid_directives e)

abbrev pub block_error : Option BlockError → Option HostError
block_error none = none
block_error (some e) = some (invalid_block e)

unfoldable pub check_upstreams : Library → List UpstreamInput → Option HostError
check_upstreams lib [] = none
check_upstreams lib (u ∷ us) =
    or_else (upstream_error (validate_upstream lib.split_host_port u.address))
      (check_upstreams lib us)

unfoldable pub check_ranges : Library → List AccessInput → Option HostError
check_ranges lib [] = none
check_ranges lib (a ∷ rest) =
    or_else (range_error (validate_ip_range lib.parse_cidr lib.parse_ip a.ip_range))
      (check_ranges lib rest)

unfoldable pub check_value : Text → Text → Option HostError
check_value label val = if validate_caddy_value val then none else some (invalid_value label)

-- The loop over the map of the fields; the source meets them in any order, and stops at the first
-- that is refused.
unfoldable pub check_values : HostCreateRequest → Option HostError
check_values req = or_else (check_value (codes "redirect_url") req.redirect_url) (
    or_else (check_value (codes "root_path") req.root_path) (
      or_else (check_value (codes "error_page_path") req.error_page_path) (
        or_else (check_value (codes "php_fastcgi") req.php_fastcgi) (
          or_else (check_value (codes "index_files") req.index_files) (
            or_else (check_value (codes "cors_origins") req.cors_origins) (
              or_else (check_value (codes "cors_methods") req.cors_methods)
                (check_value (codes "cors_headers") req.cors_headers)))))))

unfoldable pub check_headers : List HeaderInput → Option HostError
check_headers [] = none
check_headers (h ∷ hs) =
    or_else (check_value (codes "header name") h.name)
      (or_else (check_value (codes "header value") h.value) (check_headers hs))

unfoldable pub check_type : Text → Option HostError
check_type t =
    if text_eq t (codes "proxy")
      || text_eq t (codes "redirect")
      || text_eq t (codes "static")
      || text_eq t (codes "php")
    then none
    else some (invalid_type t)

-- The fields that a type of host needs; what the request leaves empty may stand in the host.
unfoldable pub check_required : Text → HostCreateRequest → Host → Option HostError
check_required t req host =
    if text_eq t (codes "redirect")
    then if null req.redirect_url && null host.redirect_url
      then some redirect_url_required
      else none
    else if text_eq t (codes "proxy")
    then if null req.upstreams then some upstream_required else none
    else if null (string_or_default req.root_path host.root_path)
    then some root_path_required
    else none

unfoldable pub check_request : Library → List Text → HostCreateRequest → Host → Option HostError
check_request lib domains req host =
    let t = string_or_default req.host_type host.host_type in
    or_else (check_upstreams lib req.upstreams) (
      or_else (check_ranges lib req.access_rules) (
        or_else (directive_error (sanitize_custom_directives req.custom_directives)) (
          or_else
            (block_error
              (validate_full_caddy_block_for_domains lib.wide domains req.full_caddy_block))
            (or_else (check_values req) (
              or_else (check_headers req.custom_headers)
                (or_else (check_type t) (check_required t req host)))))))
