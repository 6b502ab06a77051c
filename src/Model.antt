-- ===== src/Model.antt =====
-- internal/model/model.go: the rows of a host and of what belongs to it. Timestamps are left out,
-- and so are the group and the tags that GORM attaches to a host that it reads. A pointer is an
-- Option; `none` is nil.
use pdai_server_panel.Common.{ℕ, Bool, Option, List, ℤ}
use pdai_server_panel.Text.{Text}

pub record DnsProvider : Type 0 where
  pub id : ℕ
  pub name : Text
  pub provider : Text
  pub config : Text
  pub is_default : Option Bool

pub record Certificate : Type 0 where
  pub id : ℕ
  pub name : Text
  pub domains : Text
  pub cert_path : Text
  pub key_path : Text

pub record HostDomain : Type 0 where
  pub id : ℕ
  pub host_id : ℕ
  pub domain : Text
  pub sort_order : ℤ

pub record Upstream : Type 0 where
  pub id : ℕ
  pub host_id : ℕ
  pub address : Text
  pub weight : ℤ
  pub sort_order : ℤ

pub record Route : Type 0 where
  pub id : ℕ
  pub host_id : ℕ
  pub path : Text
  pub upstream_id : Option ℕ
  pub sort_order : ℤ

pub record CustomHeader : Type 0 where
  pub id : ℕ
  pub host_id : ℕ
  pub direction : Text
  pub operation : Text
  pub name : Text
  pub value : Text
  pub sort_order : ℤ

pub record AccessRule : Type 0 where
  pub id : ℕ
  pub host_id : ℕ
  pub rule_type : Text
  pub ip_range : Text
  pub sort_order : ℤ

pub record BasicAuth : Type 0 where
  pub id : ℕ
  pub host_id : ℕ
  pub username : Text
  pub password_hash : Text

pub record Host : Type 0 where
  pub id : ℕ
  pub domain : Text
  pub host_type : Text
  pub enabled : Option Bool
  pub tls_enabled : Option Bool
  pub http_redirect : Option Bool
  pub web_socket : Option Bool
  pub redirect_url : Text
  pub redirect_code : ℤ
  pub custom_cert_path : Text
  pub custom_key_path : Text
  pub tls_mode : Text
  pub dns_provider_id : Option ℕ
  pub certificate_id : Option ℕ
  pub compression : Option Bool
  pub cache_enabled : Option Bool
  pub cache_ttl : ℤ
  pub cors_enabled : Option Bool
  pub cors_origins : Text
  pub cors_methods : Text
  pub cors_headers : Text
  pub security_headers : Option Bool
  pub error_page_path : Text
  pub custom_directives : Text
  pub full_caddy_block : Text
  pub root_path : Text
  pub directory_browse : Option Bool
  pub php_fastcgi : Text
  pub index_files : Text
  pub config_overrides : Text
  pub group_id : Option ℕ
  pub domains : List HostDomain
  pub upstreams : List Upstream
  pub custom_headers : List CustomHeader
  pub access_rules : List AccessRule
  pub routes : List Route
  pub basic_auths : List BasicAuth
