-- ===== src/Host/Update.antt =====
-- internal/service/host.go, `Update`. The database is the list of the hosts with what belongs to
-- them, and its statements succeed; the tags of a host are left out. What the source changes before
-- it returns an error stays changed, so a call returns the database beside its answer.
pub mod Inputs
pub mod Written
pub mod Renderable
pub mod Claimed
use mathlib.Core.List.{map}
use pdai_server_panel.Common.{
  ℕ, zero, suc, ◌+◌, Bool, true, false, ◌||◌, ◌&&◌, not, Option, none, some, List, [], ◌∷◌, ◌++◌,
  ◌==◌, if◌then◌else◌, null, ℤ, pos, negsuc, ltb, Result, ok, err, length,
}
use pdai_server_panel.Text.{Text, codes, text_eq, trim_space}
use pdai_server_panel.Model.{Host, HostDomain, Upstream, Route, BasicAuth}
use pdai_server_panel.Caddy.Domain.{DomainError}
use pdai_server_panel.Caddy.Directives.{
  DirectiveError, sanitize_custom_directives, validate_caddy_value,
}
use pdai_server_panel.Caddy.SiteBlock.{BlockError, validate_full_caddy_block_for_domains}
use pdai_server_panel.Caddy.Upstream.{
  UpstreamError, RangeError, validate_upstream, validate_ip_range,
}
use pdai_server_panel.Host.Request.{
  HostCreateRequest, UpstreamInput, HeaderInput, AccessInput, BasicAuthInput, bool_or_default,
  bool_val, string_or_default, uint_ptr_or_nil, host_domains_from_request, build_host_domain_rows,
  upstream_rows, header_rows, access_rows,
}
use pdai_server_panel.Host.Claim.{claim_requested_domains, check_domain_conflicts}
use pdai_server_panel.Host.Checks.{
  or_else, upstream_error, range_error, directive_error, block_error, check_upstreams, check_ranges,
  check_value, check_values, check_headers, check_type, check_required, check_request, Library,
  HostError, not_found, config_failed, redirect_url_required, upstream_required, root_path_required,
  invalid_domain, domain_exists, invalid_upstream, invalid_range, invalid_directives, invalid_block,
  invalid_value, invalid_type, hash_failed,
}
use pdai_server_panel.Host.Rows.{
  first_or, others, with_ids, updated, consed_auth, hashed, cleared, old_index, id_at, remap_route,
}

unfoldable pub find_host : ℕ → List Host → Option Host
find_host id [] = none
find_host id (h ∷ hs) = let rest = find_host id hs in if h.id == id then some h else rest

unfoldable pub replace : Host → List Host → List Host
replace new [] = []
replace new (h ∷ hs) = (if h.id == new.id then new else h) ∷ replace new hs

abbrev pub saved : Library → Host → List Host → List Host × Result HostError Host
saved lib new hosts = (replace new hosts, if lib.apply_ok then ok new else err config_failed)

abbrev pub write_hashed :
    Library
    → List Text
    → HostCreateRequest
    → Host
    → List Host
    → Result HostError (List BasicAuth)
    → List Host × Result HostError Host
write_hashed lib domains req host hosts (err e) = (replace (cleared host) hosts, err e)
write_hashed lib domains req host hosts (ok auths) =
    let new = updated lib domains req host auths in
    saved lib
      (record new {
        routes = map (remap_route (lib.order_upstreams host.upstreams) new.upstreams) host.routes;
      })
      hosts

-- The rows of the request, and the columns, are written.
unfoldable pub write :
    Library → List Text → HostCreateRequest → Host → List Host → List Host × Result HostError Host
write lib domains req host hosts =
    write_hashed lib domains req host hosts (hashed lib host.id req.basic_auths)

abbrev pub write_checked :
    Library
    → List Text
    → HostCreateRequest
    → Host
    → List Host
    → Option Text
    → Option HostError
    → List Host × Result HostError Host
write_checked lib domains req host claimed (some d) e = (claimed, err (domain_exists d))
write_checked lib domains req host claimed none (some e) = (claimed, err e)
write_checked lib domains req host claimed none none = write lib domains req host claimed

-- The domains are claimed before the request is checked.
unfoldable pub claim_and_write :
    Library → List Text → HostCreateRequest → Host → List Host → List Host × Result HostError Host
claim_and_write lib domains req host hosts =
    let claimed =
      claim_requested_domains lib.wide lib.fold lib.order_domains (some host.id) domains hosts in
    write_checked lib domains req host claimed
      (check_domain_conflicts lib.wide (some host.id) domains claimed)
      (check_request lib domains req host)

abbrev pub update_found :
    Library
    → HostCreateRequest
    → List Host
    → Option Host
    → Result DomainError (List Text)
    → List Host × Result HostError Host
update_found lib req hosts none r = (hosts, err not_found)
update_found lib req hosts (some host) (err e) = (hosts, err (invalid_domain e))
update_found lib req hosts (some host) (ok domains) = claim_and_write lib domains req host hosts

unfoldable pub update :
    Library → ℕ → HostCreateRequest → List Host → List Host × Result HostError Host
update lib id req hosts =
    update_found lib req hosts (find_host id hosts) (host_domains_from_request lib.wide req)
