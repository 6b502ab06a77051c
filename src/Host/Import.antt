-- ===== src/Host/Import.antt =====
-- internal/service/host.go, `ImportAll`: all hosts are checked, and then take the place of those that
-- are there. Tags are left out; the statements succeed, so the domains that are imported differ.
pub mod Taken
use mathlib.Core.List.{map}
use pdai_server_panel.Common.{ℕ, Option, none, some, List, [], ◌∷◌, ◌++◌, if◌then◌else◌, pos}
use pdai_server_panel.Text.{Text, codes}
use pdai_server_panel.Model.{Host, HostDomain, Upstream, Route, CustomHeader, AccessRule, BasicAuth}
use pdai_server_panel.Caddy.Domain.{DomainError, validate_domain}
use pdai_server_panel.Caddy.Directives.{sanitize_custom_directives}
use pdai_server_panel.Caddy.SiteBlock.{validate_full_caddy_block_for_domains}
use pdai_server_panel.Caddy.Upstream.{validate_upstream, validate_ip_range}
use pdai_server_panel.Host.Request.{string_or_default}
use pdai_server_panel.Host.Checks.{
  Library, HostError, invalid_domain, config_failed, or_else, upstream_error, range_error,
  directive_error, block_error, check_value,
}
use pdai_server_panel.Host.Rows.{with_ids}
use pdai_server_panel.Host.Clone.{cloned, clone_route, zero_or}

-- The first error of a list of rows.
unfoldable pub first_error : {A : Type 0} → (A → Option HostError) → List A → Option HostError
first_error check [] = none
first_error check (x ∷ xs) = or_else (check x) (first_error check xs)

abbrev pub domain_error : Option DomainError → Option HostError
domain_error none = none
domain_error (some e) = some (invalid_domain e)

abbrev pub host_values : Host → List Text
host_values h =
    h.redirect_url ∷ h.root_path ∷ h.error_page_path ∷ h.php_fastcgi ∷ h.index_files
    ∷ h.cors_origins ∷ h.cors_methods ∷ h.cors_headers ∷ []

-- The loop over the map of the fields, which the source meets in any order.
unfoldable pub check_host_values : Host → Option HostError
check_host_values h = first_error (check_value (codes "field")) (host_values h)

abbrev pub all_domains : Host → List Text
all_domains h = h.domain ∷ map (λ (d : HostDomain). d.domain) h.domains

-- Neither the paths of a certificate nor the basic auths are checked.
unfoldable pub check_imported : Library → Host → Option HostError
check_imported lib h = or_else (domain_error (validate_domain h.domain)) (
    or_else (first_error (λ (d : HostDomain). domain_error (validate_domain d.domain)) h.domains) (
      or_else
        (block_error
          (validate_full_caddy_block_for_domains lib.wide (all_domains h) h.full_caddy_block))
        (or_else
          (first_error
            (λ (u : Upstream). upstream_error (validate_upstream lib.split_host_port u.address))
            h.upstreams)
          (or_else
            (first_error
              (λ (r : AccessRule).
                range_error (validate_ip_range lib.parse_cidr lib.parse_ip r.ip_range))
              h.access_rules)
            (or_else (directive_error (sanitize_custom_directives h.custom_directives)) (
              or_else (check_host_values h) (
                or_else
                  (first_error
                    (λ (c : CustomHeader).
                      or_else (check_value (codes "header name") c.name)
                        (check_value (codes "header value") c.value))
                    h.custom_headers)
                  (first_error (λ (r : Route). check_value (codes "route path") r.path)
                    h.routes))))))))

-- An upstream, a header and a route with the columns' defaults.
abbrev pub import_upstream : ℕ → Upstream → Upstream
import_upstream id u = record u { id = 0; host_id = id; weight = zero_or u.weight (pos 1) }

abbrev pub import_header : ℕ → CustomHeader → CustomHeader
import_header id c = record c {
  id = 0;
  host_id = id;
  direction = string_or_default c.direction (codes "request");
  operation = string_or_default c.operation (codes "set");
}

abbrev pub import_route : List Upstream → List Upstream → ℕ → Route → Route
import_route old new id r = record (clone_route old new id r) {
  path = string_or_default r.path (codes "/");
}

abbrev pub import_upstreams : Library → ℕ → List Upstream → List Upstream
import_upstreams lib id us = with_ids lib 0 (map (import_upstream id) us)

-- A new row, with the columns' defaults for what is nil or zero, as in a clone.
unfoldable pub imported : Library → ℕ → Host → Host
imported lib id h = record (cloned lib id h.domain h) {
  config_overrides = h.config_overrides;
  domains = map (λ (d : HostDomain). record d { id = 0; host_id = id }) h.domains;
  upstreams = import_upstreams lib id h.upstreams;
  custom_headers = map (import_header id) h.custom_headers;
  routes = map (import_route h.upstreams (import_upstreams lib id h.upstreams) id) h.routes;
}

-- `done` are the hosts that have been created so far.
unfoldable pub import_hosts : Library → List Host → List Host → List Host
import_hosts lib done [] = done
import_hosts lib done (h ∷ hs) =
    import_hosts lib (done ++ imported lib (lib.new_host_id done) h ∷ []) hs

abbrev pub import_checked :
    Library → List Host → List Host → Option HostError → List Host × Option HostError
import_checked lib data_hosts hosts (some e) = (hosts, some e)
import_checked lib data_hosts hosts none =
    (import_hosts lib [] data_hosts, if lib.apply_ok then none else some config_failed)

unfoldable pub import_all : Library → List Host → List Host → List Host × Option HostError
import_all lib data_hosts hosts =
    import_checked lib data_hosts hosts (first_error (check_imported lib) data_hosts)
