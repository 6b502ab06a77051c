-- ===== src/Host/Clone.antt =====
-- internal/service/host.go, `CloneHost`, and of model.go the defaults that the database has for the
-- columns of a host that are nil or zero.
use mathlib.Core.List.{map}
use pdai_server_panel.Common.{
  ℕ, zero, suc, Bool, true, false, Option, none, some, List, [], ◌∷◌, ◌++◌, if◌then◌else◌, ℤ, pos,
  negsuc, any, Result, ok, err,
}
use pdai_server_panel.Text.{Text, codes, text_eq}
use pdai_server_panel.Model.{Host, Upstream, Route, CustomHeader, AccessRule, BasicAuth}
use pdai_server_panel.Caddy.Domain.{validate_domain, DomainError}
use pdai_server_panel.Host.Request.{bool_or_default, string_or_default}
use pdai_server_panel.Host.Checks.{Library, HostError, not_found, invalid_domain, domain_exists}
use pdai_server_panel.Host.Rows.{with_ids, new_upstream}
use pdai_server_panel.Host.Update.{find_host}

abbrev pub zero_or : ℤ → ℤ → ℤ
zero_or (pos zero) d = d
zero_or (pos (suc n)) d = pos (suc n)
zero_or (negsuc n) d = negsuc n

abbrev pub copy_bool_ptr : Option Bool → Option Bool
copy_bool_ptr none = none
copy_bool_ptr (some b) = some b

abbrev pub column : Option Bool → Bool → Option Bool
column b d = some (bool_or_default (copy_bool_ptr b) d)

abbrev pub clone_upstreams : Library → ℕ → List Upstream → List Upstream
clone_upstreams lib id us =
    with_ids lib 0 (map (λ (u : Upstream). record u { id = 0; host_id = id }) us)

-- A route whose upstream is not found has none.
abbrev pub clone_route : List Upstream → List Upstream → ℕ → Route → Route
clone_route old new id r = record {
  id = 0;
  host_id = id;
  path = r.path;
  upstream_id = new_upstream old new r.upstream_id;
  sort_order = r.sort_order;
}

-- The source's additional domains are not copied.
unfoldable pub cloned : Library → ℕ → Text → Host → Host
cloned lib id new_domain source = record source {
  id = id;
  domain = new_domain;
  host_type = string_or_default source.host_type (codes "proxy");
  enabled = column source.enabled true;
  tls_enabled = column source.tls_enabled true;
  http_redirect = column source.http_redirect false;
  web_socket = column source.web_socket false;
  redirect_code = zero_or source.redirect_code (pos 301);
  tls_mode = string_or_default source.tls_mode (codes "auto");
  compression = column source.compression false;
  cache_enabled = column source.cache_enabled false;
  cache_ttl = zero_or source.cache_ttl (pos 300);
  cors_enabled = column source.cors_enabled false;
  security_headers = column source.security_headers false;
  directory_browse = column source.directory_browse false;
  config_overrides = [];
  domains = [];
  upstreams = clone_upstreams lib id source.upstreams;
  custom_headers =
      map (λ (h : CustomHeader). record h { id = 0; host_id = id }) source.custom_headers;
  access_rules = map (λ (a : AccessRule). record a { id = 0; host_id = id }) source.access_rules;
  routes =
      map (clone_route source.upstreams (clone_upstreams lib id source.upstreams) id) source.routes;
  basic_auths = map (λ (a : BasicAuth). record a { id = 0; host_id = id }) source.basic_auths;
}

abbrev pub clone_found :
    Library → Text → List Host → Option Host → List Host × Result HostError Host
clone_found lib new_domain hosts none = (hosts, err not_found)
clone_found lib new_domain hosts (some source) =
    let new = cloned lib (lib.new_host_id hosts) new_domain source in (hosts ++ new ∷ [], ok new)

abbrev pub clone_validated :
    Library → ℕ → Text → List Host → Option DomainError → List Host × Result HostError Host
clone_validated lib source_id new_domain hosts (some e) = (hosts, err (invalid_domain e))
clone_validated lib source_id new_domain hosts none =
    if any (λ (h : Host). text_eq h.domain new_domain) hosts
    then (hosts, err (domain_exists new_domain))
    else clone_found lib new_domain hosts (find_host source_id hosts)

-- An error in applying the configuration is only logged.
unfoldable pub clone_host : Library → ℕ → Text → List Host → List Host × Result HostError Host
clone_host lib source_id new_domain hosts =
    clone_validated lib source_id new_domain hosts (validate_domain new_domain)
