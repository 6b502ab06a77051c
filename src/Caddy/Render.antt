-- ===== src/Caddy/Render.antt =====
-- internal/caddy/renderer.go: the Caddyfile of the hosts. Each write of the source ends a line, so
-- what a function writes is given by its lines, and `text_of` puts the newlines back.
-- `sort` is sort.Slice with `<` on a key; `parse_json` is json.Unmarshal into a map of strings, in
-- which a missing key has the empty value; `generated_at` is the time in the header.
pub mod Parts
pub mod Lines
pub mod Blocks
pub mod Digits
pub mod Dns
pub mod Sorted
pub mod Sites
pub mod Rendered
use mathlib.Core.List.{map}
use pdai_server_panel.Common.{
  ℕ, zero, suc, ◌+◌, ◌-◌, ◌/◌, ◌%◌, Bool, true, false, ◌&&◌, ◌||◌, not, Option, none, some, List,
  [], ◌∷◌, ◌++◌, ◌==◌, ltb, if◌then◌else◌, ℤ, pos, negsuc, null, length, any,
}
use pdai_server_panel.Text.{
  Text, codes, text_eq, trim_space, split, to_lower, has_prefix, contains_any,
}
use pdai_server_panel.Model.{
  Host, HostDomain, Upstream, Route, CustomHeader, AccessRule, BasicAuth, DnsProvider,
}
use pdai_server_panel.Caddy.FileName.{safe_domain_file_name}
use pdai_server_panel.Caddy.Render.Parts.{
  text_of, join, decimal_text, or_text, is_true, is_false, is_302, render_compression,
  render_security_headers, render_basic_auth, render_redirect, render_cors, render_error_pages,
  render_static_host, render_php_host, render_dns_tls,
}

abbrev pub is_public_url : Upstream → Bool
is_public_url u = has_prefix u.address (codes "http://") || has_prefix u.address (codes "https://")

-- The parameter `websocket` of the source is not used there.
unfoldable pub render_reverse_proxy : List Upstream → List Text
render_reverse_proxy upstreams =
    ((codes "\treverse_proxy "
        ++ (join (codes " ") (map (λ (u : Upstream). u.address) upstreams) ++ codes " {"))
      ∷ [])
    ++ (((if ltb 1 (length upstreams) then codes "\t\tlb_policy round_robin" ∷ [] else [])
          ++ ((if any is_public_url upstreams
                then codes "\t\theader_up Host {upstream_hostport}" ∷ []
                else [])
              ++ (codes "\t\theader_up X-Real-IP {remote_host}" ∷ [])))
        ++ (codes "\t}" ∷ []))

-- upstreamMap[id]: a later row replaces an earlier one
unfoldable pub find_upstream : ℕ → List Upstream → Option Upstream
find_upstream id [] = none
find_upstream id (u ∷ us) = elim (find_upstream id us) [
  | some v ↦ some v
  | none ↦ if u.id == id then some u else none
]

abbrev pub matcher_name : Route → Text
matcher_name route = codes "path_" ++ decimal_text route.id

unfoldable pub route_proxy : Route → Option Upstream → List Text
route_proxy route none = []
route_proxy route (some u) =
    (codes "\treverse_proxy @" ++ (matcher_name route ++ (codes " " ++ u.address))) ∷ []

abbrev pub route_upstream : List Upstream → Option ℕ → Option Upstream
route_upstream us none = none
route_upstream us (some id) = find_upstream id us

unfoldable pub route_lines : List Upstream → List Route → List Text
route_lines us [] = []
route_lines us (r ∷ rs) =
    (codes "\t@" ++ (matcher_name r ++ (codes " path " ++ r.path)))
    ∷ (route_proxy r (route_upstream us r.upstream_id) ++ route_lines us rs)

abbrev pub rule_lines : AccessRule → List Text
rule_lines rule =
    if text_eq rule.rule_type (codes "allow")
    then (codes "\t@blocked not remote_ip " ++ rule.ip_range) ∷ codes "\tabort @blocked" ∷ []
    else if text_eq rule.rule_type (codes "deny")
    then (codes "\t@denied remote_ip " ++ rule.ip_range) ∷ codes "\tabort @denied" ∷ []
    else []

unfoldable pub all_rule_lines : List AccessRule → List Text
all_rule_lines [] = []
all_rule_lines (r ∷ rs) = rule_lines r ++ all_rule_lines rs

abbrev pub header_lines : CustomHeader → List Text
header_lines h =
    if text_eq h.operation (codes "set")
    then (codes "\t\t" ++ (h.name ++ (codes " \"" ++ (h.value ++ codes "\"")))) ∷ []
    else if text_eq h.operation (codes "add")
    then (codes "\t\t+" ++ (h.name ++ (codes " \"" ++ (h.value ++ codes "\"")))) ∷ []
    else if text_eq h.operation (codes "delete")
    then (codes "\t\t-" ++ h.name) ∷ []
    else []

unfoldable pub all_header_lines : List CustomHeader → List Text
all_header_lines [] = []
all_header_lines (h ∷ hs) = header_lines h ++ all_header_lines hs

module _ (sort : (A : Type 0) → (A → ℤ) → List A → List A) where
  -- One round of the loop over the additional domains; `seen` are the keys met so far.
  unfoldable pub more_domains : (ℕ → ℕ) → List Text → List HostDomain → List Text
  more_domains wide seen [] = []
  more_domains wide seen (d ∷ ds) =
      let name = trim_space d.domain in
      let key = to_lower wide name in
      elim (null name || any (λ k. text_eq k key) seen) [
        | true ↦ more_domains wide seen ds
        | false ↦ name ∷ more_domains wide (key ∷ seen) ds
      ]

  unfoldable pub host_site_domains : (ℕ → ℕ) → Host → List Text
  host_site_domains wide host =
      host.domain
      ∷ more_domains wide (to_lower wide (trim_space host.domain) ∷ [])
          (sort HostDomain (λ d. d.sort_order) host.domains)

  unfoldable pub render_routes : Host → List Text
  render_routes host = route_lines host.upstreams (sort Route (λ r. r.sort_order) host.routes)

  unfoldable pub render_access_rules : List AccessRule → List Text
  render_access_rules rules = all_rule_lines (sort AccessRule (λ r. r.sort_order) rules)

  unfoldable pub render_response_headers : List CustomHeader → List Text
  render_response_headers headers =
      if null headers
      then []
      else (codes "\theader {" ∷ [])
        ++ (all_header_lines (sort CustomHeader (λ h. h.sort_order) headers) ++ (codes "\t}" ∷ []))

  unfoldable pub render_proxy_host : Host → List Text
  render_proxy_host host =
      let upstreams = sort Upstream (λ u. u.sort_order) host.upstreams in
      (if not (null host.routes)
        then render_routes host
        else if not (null upstreams)
        then render_reverse_proxy upstreams
        else [])
      ++ render_response_headers host.custom_headers

  module _ (wide : ℕ → ℕ) (parse_json : Text → Option (Text → Text)) (log_dir : Text)
      (providers : ℕ → Option DnsProvider) where
    abbrev pub site_mode : Host → Text
    site_mode host = or_text host.tls_mode (codes "auto")

    unfoldable pub site_names : Host → List Text
    site_names host =
        let names = host_site_domains wide host in
        if text_eq (site_mode host) (codes "off") || is_false host.tls_enabled
        then map (λ (d : Text). codes "http://" ++ d) names
        else names

    unfoldable pub provider_lines : Option DnsProvider → List Text
    provider_lines none = []
    provider_lines (some p) = render_dns_tls parse_json p

    abbrev pub provider_of : Option ℕ → Option DnsProvider
    provider_of none = none
    provider_of (some id) = providers id

    unfoldable pub tls_lines : Host → List Text
    tls_lines host =
        if text_eq (site_mode host) (codes "custom")
        then if not (null host.custom_cert_path) && not (null host.custom_key_path)
          then (codes "\ttls " ++ (host.custom_cert_path ++ (codes " " ++ host.custom_key_path)))
            ∷ []
          else []
        else if text_eq (site_mode host) (codes "dns")
            || text_eq (site_mode host) (codes "wildcard")
        then provider_lines (provider_of host.dns_provider_id)
        else []

    unfoldable pub type_lines : Host → List Text
    type_lines host =
        if text_eq host.host_type (codes "redirect")
        then render_redirect host
        else if text_eq host.host_type (codes "static")
        then render_static_host host
        else if text_eq host.host_type (codes "php")
        then render_php_host host
        else render_proxy_host host

    unfoldable pub directive_lines : Text → List Text
    directive_lines t =
        if null t
        then []
        else map (λ (l : Text). codes "\t" ++ l) (split (λ c. c == 10) (trim_space t))

    unfoldable pub access_log_lines : Host → List Text
    access_log_lines host =
        codes "\tlog {"
        ∷ (codes "\t\toutput file "
            ++ (log_dir
                ++ (codes "/access-" ++ (safe_domain_file_name host.domain ++ codes ".log {"))))
        ∷ codes "\t\t\troll_size 50MiB"
        ∷ codes "\t\t\troll_keep 3"
        ∷ codes "\t\t}"
        ∷ codes "\t}"
        ∷ []

    -- What stands between the braces of a generated block.
    unfoldable pub body_lines : Host → List Text
    body_lines host =
        tls_lines host
        ++ ((if is_true host.compression then render_compression else [])
            ++ ((if not (null host.access_rules) then render_access_rules host.access_rules else [])
                ++ ((if not (null host.basic_auths) then render_basic_auth host.basic_auths else [])
                    ++ ((if is_true host.cors_enabled then render_cors host else [])
                        ++ ((if is_true host.security_headers then render_security_headers else [])
                            ++ (type_lines host
                                ++ (directive_lines host.custom_directives
                                    ++ ((if not (null host.error_page_path)
                                          then render_error_pages host.error_page_path
                                          else [])
                                        ++ access_log_lines host))))))))

    abbrev pub site_line : Host → Text
    site_line host = join (codes " ") (site_names host) ++ codes " {"

    unfoldable pub render_host_block : Host → List Text
    render_host_block host =
        if not (null (trim_space host.full_caddy_block))
        then split (λ c. c == 10) (trim_space host.full_caddy_block) ++ ([] ∷ [])
        else ((site_line host ∷ []) ++ (body_lines host ++ (codes "}" ∷ []))) ++ ([] ∷ [])

    -- The loop over the hosts; one that is disabled is passed over.
    unfoldable pub host_blocks : List Host → List Text
    host_blocks [] = []
    host_blocks (h ∷ hs) =
        let rest = host_blocks hs in
        if is_false h.enabled then rest else render_host_block h ++ rest

    unfoldable pub global_lines : Text → List Text
    global_lines generated_at =
        codes "# ============================================"
        ∷ codes "# Auto-generated by Pdai"
        ∷ codes "# DO NOT EDIT MANUALLY — changes will be overwritten"
        ∷ (codes "# Generated at: " ++ generated_at)
        ∷ codes "# ============================================"
        ∷ []
        ∷ codes "{"
        ∷ codes "\tadmin localhost:2019"
        ∷ codes "\tlog {"
        ∷ (codes "\t\toutput file " ++ (log_dir ++ codes "/caddy.log {"))
        ∷ codes "\t\t\troll_size 100MiB"
        ∷ codes "\t\t\troll_keep 5"
        ∷ codes "\t\t}"
        ∷ codes "\t\tlevel INFO"
        ∷ codes "\t}"
        ∷ codes "}"
        ∷ []
        ∷ []

    unfoldable pub render_caddyfile : Text → List Host → Text
    render_caddyfile generated_at hosts = text_of (global_lines generated_at ++ host_blocks hosts)
