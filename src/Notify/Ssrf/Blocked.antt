-- ===== src/Notify/Ssrf/Blocked.antt =====
-- The targets that are let through.
use pdai_server_panel.Common.{ℕ, true, false, ◌||◌, Option, none, some, List, ◌≡◌, any, All}
use pdai_server_panel.Text.{Text, codes, text_eq, to_lower, has_suffix}
use pdai_server_panel.Notify.Ssrf.{Url, Ip, dangerous_hosts, is_metadata}

-- Neither loopback, nor link-local, nor in 169.254.0.0/16.
pub record IsPublic (ip : Ip) : Type 0 where
  pub no_loopback : ip.is_loopback ≡ false
  pub no_unicast : ip.is_link_local_unicast ≡ false
  pub no_multicast : ip.is_link_local_multicast ≡ false
  pub no_metadata : is_metadata ip.to4 ≡ false

abbrev pub IsPublicIfIp : Option Ip → Type 0
IsPublicIfIp none = Unit
IsPublicIfIp (some ip) = IsPublic ip

module _ (parse_ip : Text → Option Ip) where
  abbrev pub ArePublic : List Text → Type 0
  ArePublic addrs = All (λ a. IsPublicIfIp (parse_ip a)) addrs

  module _ (parse_url : Text → Option Url) (lookup_host : Text → Option (List Text))
      (wide : ℕ → ℕ) where
    abbrev pub IfResolved : Option (List Text) → Type 0
    IfResolved none = Unit
    IfResolved (some addrs) = ArePublic addrs

    abbrev pub IsPublicHost : Text → Option Ip → Type 0
    IsPublicHost hostname (some ip) = IsPublic ip
    IsPublicHost hostname none = IfResolved (lookup_host hostname)

    -- A web address, whose host is none of the dangerous names and does not end in `.internal`; if
    -- the host is an IP address it is public, and otherwise all addresses it resolves to are.
    pub record IsAllowed (raw_url : Text) : Type 0 where
      pub url : Url
      pub parsed : parse_url raw_url ≡ some url
      pub web : (text_eq url.scheme (codes "http") || text_eq url.scheme (codes "https")) ≡ true
      pub named :
          any (λ blocked. text_eq (to_lower wide url.hostname) blocked) dangerous_hosts ≡ false
      pub outer : has_suffix (to_lower wide url.hostname) (codes ".internal") ≡ false
      pub host : IsPublicHost (to_lower wide url.hostname) (parse_ip (to_lower wide url.hostname))
