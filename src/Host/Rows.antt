-- ===== src/Host/Rows.antt =====
-- internal/service/host.go, `Update`: the columns and the rows that a request writes.
use pdai_server_panel.Common.{
  ℕ, zero, suc, Option, none, some, List, [], ◌∷◌, ◌==◌, if◌then◌else◌, Result, ok, err,
}
use pdai_server_panel.Text.{Text, codes, trim_space}
use pdai_server_panel.Model.{Host, Upstream, Route, BasicAuth}
use pdai_server_panel.Caddy.Directives.{validate_caddy_value}
use pdai_server_panel.Host.Request.{
  int_or_default, HostCreateRequest, BasicAuthInput, bool_or_default, bool_val, string_or_default,
  uint_ptr_or_nil, build_host_domain_rows, upstream_rows, header_rows, access_rows,
}
use pdai_server_panel.Host.Checks.{Library, HostError, invalid_value, hash_failed}

abbrev pub first_or : Text → List Text → Text
first_or d [] = d
first_or d (t ∷ ts) = t

abbrev pub others : List Text → List Text
others [] = []
others (t ∷ ts) = ts

-- The ids that the database gives to the new upstreams.
unfoldable pub with_ids : Library → ℕ → List Upstream → List Upstream
with_ids lib i [] = []
with_ids lib i (u ∷ us) = record u { id = lib.new_id i } ∷ with_ids lib (suc i) us

-- The host's own columns, and the rows that replace those of before.
unfoldable pub updated : Library → List Text → HostCreateRequest → Host → List BasicAuth → Host
updated lib domains req host auths = record host {
  domain = first_or host.domain domains;
  host_type = string_or_default req.host_type host.host_type;
  enabled = some (bool_or_default req.enabled (bool_val host.enabled));
  tls_enabled = some (bool_or_default req.tls_enabled (bool_val host.tls_enabled));
  http_redirect = some (bool_or_default req.http_redirect (bool_val host.http_redirect));
  web_socket = some (bool_or_default req.web_socket (bool_val host.web_socket));
  redirect_url = string_or_default req.redirect_url host.redirect_url;
  redirect_code = int_or_default req.redirect_code host.redirect_code;
  custom_directives = req.custom_directives;
  full_caddy_block = trim_space req.full_caddy_block;
  compression = some (bool_or_default req.compression (bool_val host.compression));
  cache_enabled = some (bool_or_default req.cache_enabled (bool_val host.cache_enabled));
  cache_ttl = int_or_default req.cache_ttl host.cache_ttl;
  cors_enabled = some (bool_or_default req.cors_enabled (bool_val host.cors_enabled));
  cors_origins = req.cors_origins;
  cors_methods = req.cors_methods;
  cors_headers = req.cors_headers;
  security_headers = some (bool_or_default req.security_headers (bool_val host.security_headers));
  error_page_path = req.error_page_path;
  root_path = req.root_path;
  directory_browse = some (bool_or_default req.directory_browse (bool_val host.directory_browse));
  php_fastcgi = req.php_fastcgi;
  index_files = req.index_files;
  tls_mode = string_or_default req.tls_mode host.tls_mode;
  dns_provider_id = uint_ptr_or_nil req.dns_provider_id;
  group_id = uint_ptr_or_nil req.group_id;
  domains = build_host_domain_rows host.id 0 (others domains);
  upstreams = with_ids lib 0 (upstream_rows host.id 0 req.upstreams);
  custom_headers = header_rows host.id 0 req.custom_headers;
  access_rules = access_rows host.id 0 req.access_rules;
  basic_auths = auths;
}

abbrev pub consed_auth :
    BasicAuth → Result HostError (List BasicAuth) → Result HostError (List BasicAuth)
consed_auth a (ok t) = ok (a ∷ t)
consed_auth a (err e) = err e

-- The new hash of each password, or the first refusal.
unfoldable pub hashed : Library → ℕ → List BasicAuthInput → Result HostError (List BasicAuth)
hashed lib host_id [] = ok []
hashed lib host_id (a ∷ rest) =
    let tail = hashed lib host_id rest in
    if validate_caddy_value a.username
    then elim (lib.hash_password a.password) [
      | none ↦ err (hash_failed a.username)
      | some h ↦
          consed_auth
            (record { id = 0; host_id = host_id; username = a.username; password_hash = h }) tail
    ]
    else err (invalid_value (codes "basicauth username"))

-- The rows that are deleted before the passwords are hashed.
abbrev pub cleared : Host → Host
cleared h = record h {
  domains = [];
  upstreams = [];
  custom_headers = [];
  access_rules = [];
  basic_auths = [];
}

-- `oldIDMap[id]`
unfoldable pub old_index : ℕ → List Upstream → Option ℕ
old_index id [] = none
old_index id (u ∷ us) = elim (old_index id us) [
  | some i ↦ some (suc i)
  | none ↦ if u.id == id then some 0 else none
]

unfoldable pub id_at : ℕ → List Upstream → Option ℕ
id_at i [] = none
id_at zero (u ∷ us) = some u.id
id_at (suc i) (u ∷ us) = id_at i us

-- The new id of the upstream that stands where the route's old one stood, when there is one.
unfoldable pub new_upstream : List Upstream → List Upstream → Option ℕ → Option ℕ
new_upstream old new none = none
new_upstream old new (some id) = elim (old_index id old) [ none ↦ none | some i ↦ id_at i new ]

abbrev pub moved : Route → Option ℕ → Route
moved r none = r
moved r (some id) = record r { upstream_id = some id }

unfoldable pub remap_route : List Upstream → List Upstream → Route → Route
remap_route old new r = moved r (new_upstream old new r.upstream_id)
