-- ===== src/Host/Create.antt =====
-- internal/service/host.go, `Create`: a transaction, and then the configuration. The check of the DNS
-- records that may follow only writes to the log and is left out.
pub mod Made
pub mod Outcome
use pdai_server_panel.Common.{
  ℕ, zero, suc, Bool, true, false, ◌||◌, Option, none, some, List, [], ◌∷◌, ◌++◌, if◌then◌else◌,
  null, ℤ, pos, Result, ok, err,
}
use pdai_server_panel.Text.{Text, codes, text_eq, trim_space}
use pdai_server_panel.Model.{Host, BasicAuth}
use pdai_server_panel.Caddy.Domain.{DomainError}
use pdai_server_panel.Caddy.Directives.{sanitize_custom_directives}
use pdai_server_panel.Caddy.SiteBlock.{validate_full_caddy_block_for_domains}
use pdai_server_panel.Caddy.FileName.{safe_domain_file_name}
use pdai_server_panel.Host.Request.{
  HostCreateRequest, bool_or_default, int_or_default, string_or_default, uint_ptr_or_nil,
  host_domains_from_request, build_host_domain_rows, upstream_rows, header_rows, access_rows,
}
use pdai_server_panel.Host.Claim.{claim_requested_domains, check_domain_conflicts}
use pdai_server_panel.Host.Checks.{
  Library, HostError, config_failed, redirect_url_required, upstream_required, root_path_required,
  invalid_domain, domain_exists, or_else, directive_error, block_error, check_values, check_headers,
  check_type,
}
use pdai_server_panel.Host.Rows.{first_or, others, with_ids, hashed}

-- The directory of a site, for a domain that is not empty.
unfoldable pub apply_default_site_paths : Library → Text → HostCreateRequest → HostCreateRequest
apply_default_site_paths lib domain req =
    let base = lib.join_path (lib.data_dir ∷ codes "www" ∷ safe_domain_file_name domain ∷ []) in
    if null domain then req else record req {
      root_path = string_or_default req.root_path (lib.join_path (base ∷ codes "index" ∷ []));
      error_page_path =
          string_or_default req.error_page_path (lib.join_path (base ∷ codes "default" ∷ []));
    }

unfoldable pub check_create_required : Text → HostCreateRequest → Option HostError
check_create_required t req =
    if text_eq t (codes "redirect")
    then if null req.redirect_url then some redirect_url_required else none
    else if text_eq t (codes "proxy")
    then if null req.upstreams then some upstream_required else none
    else if null req.root_path
    then some root_path_required
    else none

-- The addresses of the upstreams and the ranges of the access rules are not checked here.
unfoldable pub check_create : Library → List Text → HostCreateRequest → Option HostError
check_create lib domains req =
    let t = string_or_default req.host_type (codes "proxy") in
    or_else (directive_error (sanitize_custom_directives req.custom_directives)) (
      or_else
        (block_error (validate_full_caddy_block_for_domains lib.wide domains req.full_caddy_block))
        (or_else (check_values req) (
          or_else (check_headers req.custom_headers) (
            or_else (check_type t)
              (check_create_required t (apply_default_site_paths lib (first_or [] domains) req))))))

-- The new host; `req` has its default paths.
unfoldable pub made : Library → ℕ → List Text → HostCreateRequest → List BasicAuth → Host
made lib id domains req auths = record {
  id = id;
  domain = first_or [] domains;
  host_type = string_or_default req.host_type (codes "proxy");
  enabled = some (bool_or_default req.enabled true);
  tls_enabled = some (bool_or_default req.tls_enabled true);
  http_redirect = some (bool_or_default req.http_redirect false);
  web_socket = some (bool_or_default req.web_socket false);
  redirect_url = req.redirect_url;
  redirect_code = int_or_default req.redirect_code (pos 301);
  custom_cert_path = [];
  custom_key_path = [];
  tls_mode = string_or_default req.tls_mode (codes "auto");
  dns_provider_id = uint_ptr_or_nil req.dns_provider_id;
  certificate_id = none;
  compression = some (bool_or_default req.compression false);
  cache_enabled = some (bool_or_default req.cache_enabled false);
  cache_ttl = int_or_default req.cache_ttl (pos 300);
  cors_enabled = some (bool_or_default req.cors_enabled false);
  cors_origins = req.cors_origins;
  cors_methods = req.cors_methods;
  cors_headers = req.cors_headers;
  security_headers = some (bool_or_default req.security_headers false);
  error_page_path = req.error_page_path;
  custom_directives = req.custom_directives;
  full_caddy_block = trim_space req.full_caddy_block;
  root_path = req.root_path;
  directory_browse = some (bool_or_default req.directory_browse false);
  php_fastcgi = req.php_fastcgi;
  index_files = req.index_files;
  config_overrides = [];
  group_id = uint_ptr_or_nil req.group_id;
  domains = build_host_domain_rows id 0 (others domains);
  upstreams = with_ids lib 0 (upstream_rows id 0 req.upstreams);
  custom_headers = header_rows id 0 req.custom_headers;
  access_rules = access_rows id 0 req.access_rules;
  routes = [];
  basic_auths = auths;
}

-- The body of the transaction. With its result it gives the hosts as the statements before it have
-- left them, also where it ends with an error.
abbrev pub create_hashed :
    Library
    → List Text
    → HostCreateRequest
    → List Host
    → Result HostError (List BasicAuth)
    → List Host × Result HostError Host
create_hashed lib domains req claimed (err e) = (claimed, err e)
create_hashed lib domains req claimed (ok auths) =
    let new =
      made lib (lib.new_host_id claimed) domains
        (apply_default_site_paths lib (first_or [] domains) req) auths in
    (claimed ++ new ∷ [], ok new)

abbrev pub create_checked :
    Library
    → List Text
    → HostCreateRequest
    → List Host
    → Option Text
    → Option HostError
    → List Host × Result HostError Host
create_checked lib domains req claimed (some d) e = (claimed, err (domain_exists d))
create_checked lib domains req claimed none (some e) = (claimed, err e)
create_checked lib domains req claimed none none =
    create_hashed lib domains req claimed (hashed lib (lib.new_host_id claimed) req.basic_auths)

abbrev pub create_claimed :
    Library
    → HostCreateRequest
    → List Host
    → Result DomainError (List Text)
    → List Host × Result HostError Host
create_claimed lib req hosts (err e) = (hosts, err (invalid_domain e))
create_claimed lib req hosts (ok domains) =
    let claimed = claim_requested_domains lib.wide lib.fold lib.order_domains none domains hosts in
    create_checked lib domains req claimed (check_domain_conflicts lib.wide none domains claimed)
      (check_create lib domains req)

-- gorm's `Transaction`: what the body has written is kept if it returns no error, and rolled back
-- if it returns one.
abbrev pub transaction :
    List Host → List Host × Result HostError Host → List Host × Result HostError Host
transaction before (after, err e) = (before, err e)
transaction before (after, ok new) = (after, ok new)

-- After the transaction the configuration is applied; an error then undoes nothing.
abbrev pub applied : Library → List Host × Result HostError Host → List Host × Result HostError Host
applied lib (hosts, err e) = (hosts, err e)
applied lib (hosts, ok new) = (hosts, if lib.apply_ok then ok new else err config_failed)

unfoldable pub create : Library → HostCreateRequest → List Host → List Host × Result HostError Host
create lib req hosts =
    applied lib
      (transaction hosts (create_claimed lib req hosts (host_domains_from_request lib.wide req)))
