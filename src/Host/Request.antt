-- ===== src/Host/Request.antt =====
-- internal/model/model.go, the request for a host, and of internal/service/host.go what turns its
-- texts into a host's: domains, defaults, and the rows that belong to the host.
pub mod Valid
use pdai_server_panel.Common.{
  ℕ, zero, suc, Bool, true, false, ◌||◌, Option, none, some, List, [], ◌∷◌, ◌++◌, ◌==◌,
  if◌then◌else◌, ltb, null, any, ℤ, pos, negsuc, Result, ok, err,
}
use pdai_server_panel.Text.{Text, codes, text_eq, to_lower, trim_space}
use pdai_server_panel.Model.{Host, HostDomain, Upstream, CustomHeader, AccessRule, BasicAuth}
use pdai_server_panel.Caddy.Domain.{DomainError, validate_domain}

pub record UpstreamInput : Type 0 where
  pub address : Text
  pub weight : ℤ

pub record HeaderInput : Type 0 where
  pub direction : Text
  pub operation : Text
  pub name : Text
  pub value : Text

pub record AccessInput : Type 0 where
  pub rule_type : Text
  pub ip_range : Text

pub record BasicAuthInput : Type 0 where
  pub username : Text
  pub password : Text

pub record HostCreateRequest : Type 0 where
  pub domain : Text
  pub domains : List Text
  pub host_type : Text
  pub enabled : Option Bool
  pub tls_enabled : Option Bool
  pub http_redirect : Option Bool
  pub web_socket : Option Bool
  pub redirect_url : Text
  pub redirect_code : ℤ
  pub compression : Option Bool
  pub cache_enabled : Option Bool
  pub cache_ttl : ℤ
  pub cors_enabled : Option Bool
  pub cors_origins : Text
  pub cors_methods : Text
  pub cors_headers : Text
  pub security_headers : Option Bool
  pub error_page_path : Text
  pub root_path : Text
  pub directory_browse : Option Bool
  pub php_fastcgi : Text
  pub index_files : Text
  pub tls_mode : Text
  pub dns_provider_id : Option ℕ
  pub custom_directives : Text
  pub full_caddy_block : Text
  pub upstreams : List UpstreamInput
  pub custom_headers : List HeaderInput
  pub access_rules : List AccessInput
  pub basic_auths : List BasicAuthInput
  pub group_id : Option ℕ
  pub tag_ids : List ℕ

abbrev pub bool_or_default : Option Bool → Bool → Bool
bool_or_default (some b) c = b
bool_or_default none c = c

abbrev pub bool_val : Option Bool → Bool
bool_val (some b) = b
bool_val none = false

abbrev pub int_or_default : ℤ → ℤ → ℤ
int_or_default (pos zero) d = d
int_or_default (pos (suc n)) d = pos (suc n)
int_or_default (negsuc n) d = d

abbrev pub string_or_default : Text → Text → Text
string_or_default s d = if null s then d else s

abbrev pub uint_ptr_or_nil : Option ℕ → Option ℕ
uint_ptr_or_nil none = none
uint_ptr_or_nil (some zero) = none
uint_ptr_or_nil (some (suc n)) = some (suc n)

abbrev pub domain_key : (ℕ → ℕ) → Text → Text
domain_key wide d = to_lower wide (trim_space d)

abbrev pub consed : Text → Result DomainError (List Text) → Result DomainError (List Text)
consed t (ok ts) = ok (t ∷ ts)
consed t (err e) = err e

-- One round of the loop over the additional domains; `seen` are those taken so far.
unfoldable pub normalize_extras : (ℕ → ℕ) → List Text → List Text → Result DomainError (List Text)
normalize_extras wide seen [] = ok []
normalize_extras wide seen (extra ∷ extras) =
    let d = domain_key wide extra in
    elim (null d) [
      | true ↦ normalize_extras wide seen extras
      | false ↦ elim (validate_domain d) [
        | some e ↦ err e
        | none ↦ elim (any (λ k. text_eq k d) seen) [
          | true ↦ normalize_extras wide seen extras
          | false ↦ consed d (normalize_extras wide (d ∷ seen) extras)
        ]
      ]
    ]

-- The primary domain stands first.
unfoldable pub normalize_host_domains : (ℕ → ℕ) → Text → List Text → Result DomainError (List Text)
normalize_host_domains wide primary extras =
    let p = domain_key wide primary in
    elim (validate_domain p) [
      | some e ↦ err e
      | none ↦ consed p (normalize_extras wide (p ∷ []) extras)
    ]

unfoldable pub host_domains_from_request :
    (ℕ → ℕ) → HostCreateRequest → Result DomainError (List Text)
host_domains_from_request wide req = normalize_host_domains wide req.domain req.domains

-- `i` is the index of the next row.
unfoldable pub build_host_domain_rows : ℕ → ℕ → List Text → List HostDomain
build_host_domain_rows host_id i [] = []
build_host_domain_rows host_id i (d ∷ ds) =
    record { id = 0; host_id = host_id; domain = d; sort_order = pos i }
    ∷ build_host_domain_rows host_id (suc i) ds

abbrev pub weight_of : ℤ → ℤ
weight_of (pos zero) = pos 1
weight_of (pos (suc n)) = pos (suc n)
weight_of (negsuc n) = pos 1

unfoldable pub upstream_rows : ℕ → ℕ → List UpstreamInput → List Upstream
upstream_rows host_id i [] = []
upstream_rows host_id i (u ∷ us) =
    record {
      id = 0;
      host_id = host_id;
      address = u.address;
      weight = weight_of u.weight;
      sort_order = pos i;
    }
    ∷ upstream_rows host_id (suc i) us

unfoldable pub header_rows : ℕ → ℕ → List HeaderInput → List CustomHeader
header_rows host_id i [] = []
header_rows host_id i (h ∷ hs) =
    record {
      id = 0;
      host_id = host_id;
      direction = string_or_default h.direction (codes "response");
      operation = string_or_default h.operation (codes "set");
      name = h.name;
      value = h.value;
      sort_order = pos i;
    }
    ∷ header_rows host_id (suc i) hs

unfoldable pub access_rows : ℕ → ℕ → List AccessInput → List AccessRule
access_rows host_id i [] = []
access_rows host_id i (a ∷ rest) =
    record {
      id = 0;
      host_id = host_id;
      rule_type = a.rule_type;
      ip_range = a.ip_range;
      sort_order = pos i;
    }
    ∷ access_rows host_id (suc i) rest
