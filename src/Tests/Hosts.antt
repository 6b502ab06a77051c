-- ===== src/Tests/Hosts.antt =====
-- Hosts, a request and a library for the tests.
use mathlib.Core.Path.{subst}
use pdai_server_panel.Common.{
  ℕ, ◌+◌, true, false, Option, none, some, List, [], ◌∷◌, ◌++◌, ◌≡◌, refl, arith, inl, inr,
  Bool-cases, All, if◌then◌else◌, pos, ℤ,
}
use pdai_server_panel.Text.{
  Text, codes, split, trim_space, has_prefix, byte_len, contains_any, decimal, is_upper,
}
use pdai_server_panel.Regex.{match_string}
use pdai_server_panel.Model.{Host, HostDomain}
use pdai_server_panel.Caddy.Domain.{domain_regex, split_domain_port, validate_domain}
use pdai_server_panel.Caddy.Domain.Accepted.{IsDomain, validate_domain_iff}
use pdai_server_panel.Caddy.Directives.{
  sanitize_custom_directives, sanitize_lines, line_text, brace_depth, brace_step,
}
use pdai_server_panel.Caddy.Directives.Balance.{Balanced}
use pdai_server_panel.Caddy.Render.Lines.{is_plain}
use pdai_server_panel.Caddy.Render.Blocks.{both-plain}
use pdai_server_panel.Caddy.Render.Sites.{IsRenderable}
use pdai_server_panel.Caddy.Render.Sorted.{Keeps}
use pdai_server_panel.Host.Request.{HostCreateRequest}
use pdai_server_panel.Host.Checks.{Library}
use pdai_server_panel.Host.Claim.Lacks.{IsStored}
use pdai_server_panel.Host.Claim.Kept.{IsSound}
use pdai_server_panel.Host.Create.Made.{JoinsPlain}

abbrev pub first_domain : Text
first_domain = codes "a.io"

abbrev pub second_domain : Text
second_domain = codes "b.io"

first_accepted : validate_domain first_domain ≡ none
unfolding validate_domain split_domain_port byte_len contains_any domain_regex match_string decimal
first_accepted = refl

second_accepted : validate_domain second_domain ≡ none
unfolding validate_domain split_domain_port byte_len contains_any domain_regex match_string decimal
second_accepted = refl

pub first-IsDomain : IsDomain first_domain
first-IsDomain = (validate_domain_iff first_domain).0 first_accepted

pub second-IsDomain : IsDomain second_domain
second-IsDomain = (validate_domain_iff second_domain).0 second_accepted

abbrev pub proxy : ℕ → Text → List HostDomain → Host
proxy id domain domains = record {
  id = id;
  domain = domain;
  host_type = codes "proxy";
  enabled = some true;
  tls_enabled = some true;
  http_redirect = some false;
  web_socket = some false;
  redirect_url = [];
  redirect_code = pos 301;
  custom_cert_path = [];
  custom_key_path = [];
  tls_mode = codes "auto";
  dns_provider_id = none;
  certificate_id = none;
  compression = some true;
  cache_enabled = some false;
  cache_ttl = pos 300;
  cors_enabled = some false;
  cors_origins = [];
  cors_methods = [];
  cors_headers = [];
  security_headers = some false;
  error_page_path = [];
  custom_directives = [];
  full_caddy_block = [];
  root_path = [];
  directory_browse = some false;
  php_fastcgi = [];
  index_files = [];
  config_overrides = [];
  group_id = none;
  domains = domains;
  upstreams =
      record {
        id = 1;
        host_id = id;
        address = codes "localhost:3000";
        weight = pos 1;
        sort_order = pos 0;
      }
      ∷ [];
  custom_headers = [];
  access_rules = [];
  routes = [];
  basic_auths = [];
}

abbrev pub two_domains : Host
two_domains =
    proxy 1 first_domain
      (record { id = 1; host_id = 1; domain = second_domain; sort_order = pos 0 } ∷ [])

abbrev pub no_domains : Host
no_domains = proxy 2 (codes "a.io:8080") []

no_domains_accepted : validate_domain (codes "a.io:8080") ≡ none
unfolding validate_domain split_domain_port byte_len contains_any domain_regex match_string decimal
no_domains_accepted = refl

proxy-IsRenderable :
    (id : ℕ) (d : Text) (ds : List HostDomain)
    → IsDomain d
    → All (λ (x : HostDomain). is_plain x.domain ≡ true) ds
    → IsRenderable (proxy id d ds)
unfolding sanitize_custom_directives sanitize_lines line_text trim_space has_prefix split
    brace_depth brace_step
proxy-IsRenderable id d ds v p = record {
  domain = v;
  others = p;
  cert = refl;
  key = refl;
  redirect = refl;
  root = refl;
  index = refl;
  fastcgi = refl;
  error_pages = refl;
  origins = refl;
  methods = refl;
  headers = refl;
  addresses = (refl, tt);
  paths = tt;
  custom = tt;
  ranges = tt;
  auths = tt;
  directives = refl;
  full = Balanced.done;
}

abbrev pub two_hosts : List Host
two_hosts = two_domains ∷ no_domains ∷ []

pub two_hosts-IsSound : All IsSound two_hosts
two_hosts-IsSound = (
  (
    proxy-IsRenderable 1 first_domain _ first-IsDomain (refl, tt),
    record { primary = first-IsDomain; more = (second-IsDomain, tt) },
  ),
  (
    (
      proxy-IsRenderable 2 (codes "a.io:8080") []
          ((validate_domain_iff (codes "a.io:8080")).0 no_domains_accepted) tt,
      record {
        primary = (validate_domain_iff (codes "a.io:8080")).0 no_domains_accepted;
        more = tt;
      },
    ),
    tt,
  ),
)

pub two_hosts-IsStored : All IsStored two_hosts
two_hosts-IsStored = (two_hosts-IsSound.0.1, (two_hosts-IsSound.1.0.1, tt))

-- It asks for the additional domain of the first host, and has a newline in its upstream.
abbrev pub taking : Text → HostCreateRequest
taking upstream = record {
  domain = codes " B.io";
  domains = [];
  host_type = codes "proxy";
  enabled = none;
  tls_enabled = none;
  http_redirect = none;
  web_socket = none;
  redirect_url = [];
  redirect_code = pos 0;
  compression = none;
  cache_enabled = none;
  cache_ttl = pos 0;
  cors_enabled = none;
  cors_origins = [];
  cors_methods = [];
  cors_headers = [];
  security_headers = none;
  error_page_path = [];
  root_path = [];
  directory_browse = none;
  php_fastcgi = [];
  index_files = [];
  tls_mode = [];
  dns_provider_id = none;
  custom_directives = [];
  full_caddy_block = [];
  upstreams = record { address = upstream; weight = pos 1 } ∷ [];
  custom_headers = [];
  access_rules = [];
  basic_auths = [];
  group_id = none;
  tag_ids = [];
}

abbrev pub wide : ℕ → ℕ
wide c = if is_upper c then c + 32 else c

pub wide-lower : (c : ℕ) → is_upper (wide c) ≡ false
wide-lower c = elim (Bool-cases (is_upper c)) [ inl e ↦ rw e (ground arith) | inr e ↦ rw e e ]

-- Slashes between the parts.
unfoldable pub slashed : List Text → Text
slashed [] = []
slashed (t ∷ []) = t
slashed (t ∷ u ∷ us) = t ++ (codes "/" ++ slashed (u ∷ us))

abbrev pub lib : Library
lib = record {
  wide = wide;
  split_host_port = λ t. none;
  parse_cidr = λ t. true;
  parse_ip = λ t. true;
  hash_password = λ p. some (codes "$2a$10$");
  order_upstreams = λ us. us;
  fold = wide;
  order_domains = λ ds. ds;
  new_id = λ i. i + 10;
  new_host_id = λ hs. 7;
  data_dir = codes "/srv";
  join_path = slashed;
  apply_ok = true;
}

abbrev PlainSome : Option Text → Type 0
PlainSome none = Unit
PlainSome (some t) = is_plain t ≡ true

pub hash-plain : (p h : Text) → lib.hash_password p ≡ some h → is_plain h ≡ true
hash-plain p h e = subst PlainSome e refl

slashed-plain :
    (parts : List Text) → All (λ t. is_plain t ≡ true) parts → is_plain (slashed parts) ≡ true
unfolding slashed
slashed-plain [] h = refl
slashed-plain (t ∷ []) (h, hs) = h
slashed-plain (t ∷ u ∷ us) (h, hs) =
    both-plain t _ h (both-plain (codes "/") (slashed (u ∷ us)) refl (slashed-plain (u ∷ us) hs))

pub lib-JoinsPlain : JoinsPlain lib
lib-JoinsPlain = (refl, slashed-plain)

abbrev pub unsorted : (A : Type 0) → (A → ℤ) → List A → List A
unsorted A key xs = xs

pub unsorted-Keeps : Keeps unsorted
unsorted-Keeps A key xs x i = i
