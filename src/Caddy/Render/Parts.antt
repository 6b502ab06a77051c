-- ===== src/Caddy/Render/Parts.antt =====
-- internal/caddy/renderer.go: the parts of a host's block that need no sorting.
use pdai_server_panel.Common.{
  ℕ, zero, suc, ◌+◌, ◌/◌, ◌%◌, Bool, false, ◌&&◌, ◌||◌, not, Option, none, some, List, [], ◌∷◌,
  ◌++◌, ◌==◌, ltb, if◌then◌else◌, ℤ, pos, negsuc, null,
}
use pdai_server_panel.Text.{Text, codes, text_eq, contains_any}
use pdai_server_panel.Model.{Host, BasicAuth, DnsProvider}

-- The text of the builder.
unfoldable pub text_of : List Text → Text
text_of [] = []
text_of (l ∷ ls) = l ++ (10 ∷ text_of ls)

-- strings.Join
unfoldable pub join : Text → List Text → Text
join sep [] = []
join sep (t ∷ []) = t
join sep (t ∷ u ∷ us) = t ++ (sep ++ join sep (u ∷ us))

unfoldable pub digits : ℕ → ℕ → Text
digits zero n = []
digits (suc fuel) n =
    let front = digits fuel (n / 10) in (if ltb n 10 then [] else front) ++ ((48 + n % 10) ∷ [])

-- `%d` of a number that is not negative. A number has fewer digits than it counts.
unfoldable pub decimal_text : ℕ → Text
decimal_text n = digits (suc n) n

abbrev pub or_text : Text → Text → Text
or_text t u = if null t then u else t

abbrev pub is_true : Option Bool → Bool
is_true none = false
is_true (some b) = b

abbrev pub is_false : Option Bool → Bool
is_false none = false
is_false (some b) = not b

abbrev pub is_302 : ℤ → Bool
is_302 (pos n) = n == 302
is_302 (negsuc n) = false

unfoldable pub render_redirect : Host → List Text
render_redirect host =
    (codes "\tredir "
      ++ (host.redirect_url
          ++ (codes "{uri} "
              ++ (if is_302 host.redirect_code then codes "temporary" else codes "permanent"))))
    ∷ []

unfoldable pub auth_lines : List BasicAuth → List Text
auth_lines [] = []
auth_lines (a ∷ rest) =
    (codes "\t\t" ++ (a.username ++ (codes " " ++ a.password_hash))) ∷ auth_lines rest

unfoldable pub render_basic_auth : List BasicAuth → List Text
render_basic_auth auths = (codes "\tbasicauth {" ∷ []) ++ (auth_lines auths ++ (codes "\t}" ∷ []))

unfoldable pub render_compression : List Text
render_compression = codes "\tencode gzip zstd" ∷ []

abbrev pub quoted_line : Text → Text → Text
quoted_line name value = name ++ (codes " \"" ++ (value ++ codes "\""))

unfoldable pub render_cors : Host → List Text
render_cors host =
    let origins = or_text host.cors_origins (codes "*") in
    let methods = or_text host.cors_methods (codes "GET, POST, PUT, DELETE, OPTIONS") in
    let headers = or_text host.cors_headers (codes "Content-Type, Authorization") in
    codes "\t@cors_preflight method OPTIONS"
    ∷ codes "\theader @cors_preflight {"
    ∷ quoted_line (codes "\t\tAccess-Control-Allow-Origin") origins
    ∷ quoted_line (codes "\t\tAccess-Control-Allow-Methods") methods
    ∷ quoted_line (codes "\t\tAccess-Control-Allow-Headers") headers
    ∷ codes "\t\tAccess-Control-Max-Age \"86400\""
    ∷ codes "\t}"
    ∷ codes "\trespond @cors_preflight 204"
    ∷ quoted_line (codes "\theader Access-Control-Allow-Origin") origins
    ∷ []

unfoldable pub render_security_headers : List Text
render_security_headers =
    codes "\theader {"
    ∷ codes "\t\tStrict-Transport-Security \"max-age=31536000; includeSubDomains; preload\""
    ∷ codes "\t\tX-Content-Type-Options \"nosniff\""
    ∷ codes "\t\tX-Frame-Options \"DENY\""
    ∷ codes "\t\tReferrer-Policy \"strict-origin-when-cross-origin\""
    ∷ codes "\t\tX-XSS-Protection \"1; mode=block\""
    ∷ codes "\t\tPermissions-Policy \"camera=(), microphone=(), geolocation=()\""
    ∷ codes "\t}"
    ∷ []

abbrev pub error_page_lines : Text → ℕ → List Text
error_page_lines path c =
    let code = decimal_text c in
    (codes "\t\t@" ++ (code ++ (codes " expression {err.status_code} == " ++ code)))
    ∷ (codes "\t\thandle @" ++ (code ++ codes " {"))
    ∷ (codes "\t\t\troot * " ++ path)
    ∷ (codes "\t\t\trewrite * /" ++ (code ++ codes ".html"))
    ∷ codes "\t\t\tfile_server"
    ∷ codes "\t\t}"
    ∷ []

unfoldable pub render_error_pages : Text → List Text
render_error_pages path =
    (codes "\thandle_errors {" ∷ [])
    ++ ((error_page_lines path 404 ++ (error_page_lines path 502 ++ error_page_lines path 503))
        ++ (codes "\t}" ∷ []))

unfoldable pub render_static_host : Host → List Text
render_static_host host =
    ((codes "\troot * " ++ host.root_path) ∷ [])
    ++ ((if null host.index_files
          then []
          else (codes "\ttry_files {path} " ++ host.index_files) ∷ [])
        ++ ((if is_true host.directory_browse
              then codes "\tfile_server browse"
              else codes "\tfile_server")
            ∷ []))

unfoldable pub render_php_host : Host → List Text
render_php_host host =
    (codes "\troot * " ++ host.root_path)
    ∷ (codes "\tphp_fastcgi " ++ or_text host.php_fastcgi (codes "localhost:9000"))
    ∷ codes "\tfile_server"
    ∷ []

-- "\n\r{}\"\\;#"
abbrev pub dns_special : Text
dns_special = 10 ∷ 13 ∷ b'{' ∷ b'}' ∷ 34 ∷ 92 ∷ b';' ∷ b'#' ∷ []

unfoldable pub safe_dns_value : Text → Bool
safe_dns_value val = not (contains_any val dns_special)

-- A value that is there and safe.
abbrev pub usable : Text → Bool
usable val = not (null val || not (safe_dns_value val))

abbrev pub dns_pair : Text → Text → Text → Text → Text → List Text
dns_pair provider name value name' value' =
    codes "\ttls {"
    ∷ (codes "\t\tdns " ++ (provider ++ codes " {"))
    ∷ (codes "\t\t\t" ++ (name ++ (codes " " ++ value)))
    ∷ (codes "\t\t\t" ++ (name' ++ (codes " " ++ value')))
    ∷ codes "\t\t}"
    ∷ codes "\t}"
    ∷ []

unfoldable pub cloudflare_lines : (Text → Text) → List Text
cloudflare_lines cfg =
    let token = cfg (codes "api_token") in
    if usable token
    then codes "\ttls {" ∷ (codes "\t\tdns cloudflare " ++ token) ∷ codes "\t}" ∷ []
    else []

unfoldable pub pair_lines : Text → Text → Text → (Text → Text) → List Text
pair_lines provider name name' cfg =
    if usable (cfg name) && usable (cfg name')
    then dns_pair provider name (cfg name) name' (cfg name')
    else []

unfoldable pub route53_lines : (Text → Text) → List Text
route53_lines cfg =
    let region = or_text (cfg (codes "region")) (codes "us-east-1") in
    let ak = cfg (codes "access_key_id") in
    let sk = cfg (codes "secret_access_key") in
    if usable ak && usable sk && safe_dns_value region
    then codes "\ttls {"
      ∷ codes "\t\tdns route53 {"
      ∷ (codes "\t\t\tregion " ++ region)
      ∷ (codes "\t\t\taccess_key_id " ++ ak)
      ∷ (codes "\t\t\tsecret_access_key " ++ sk)
      ∷ codes "\t\t}"
      ∷ codes "\t}"
      ∷ []
    else []

unfoldable pub config_lines : Text → Option (Text → Text) → List Text
config_lines provider none = []
config_lines provider (some cfg) =
    if text_eq provider (codes "cloudflare")
    then cloudflare_lines cfg
    else if text_eq provider (codes "alidns")
    then pair_lines (codes "alidns") (codes "access_key_id") (codes "access_key_secret") cfg
    else if text_eq provider (codes "tencentcloud")
    then pair_lines (codes "tencentcloud") (codes "secret_id") (codes "secret_key") cfg
    else if text_eq provider (codes "route53")
    then route53_lines cfg
    else []

unfoldable pub render_dns_tls : (Text → Option (Text → Text)) → DnsProvider → List Text
render_dns_tls parse_json p = config_lines p.provider (parse_json p.config)
