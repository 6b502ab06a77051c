-- ===== src/Notify/Ssrf.antt =====
-- internal/notify/ssrf.go: which addresses a webhook may have. net/url and net are parameters: the
-- parser of URLs, the parser of IP addresses with the tests on them, and the resolver.
pub mod Blocked
use pdai_server_panel.Common.{
  ℕ, Bool, true, false, ◌||◌, ◌&&◌, not, Option, none, some, List, [], ◌∷◌, if◌then◌else◌, any,
  null, Result, ok, err, ◌==◌, is_some,
}
use pdai_server_panel.Text.{Text, codes, text_eq, to_lower, has_suffix}

-- The parts of a url.URL that are read.
pub record Url : Type 0 where
  pub scheme : Text
  pub hostname : Text

-- net.IP, by the answers of its methods; `to4` is the first two bytes of an IPv4 address.
pub record Ip : Type 0 where
  pub is_loopback : Bool
  pub is_link_local_unicast : Bool
  pub is_link_local_multicast : Bool
  pub to4 : Option (ℕ × ℕ)

pub data SsrfError : Type 0 where
  empty_url invalid_url bad_scheme blocked_hostname loopback link_local metadata : SsrfError
  no_host : SsrfError

abbrev pub dangerous_hosts : List Text
dangerous_hosts =
    codes "localhost"
    ∷ codes "127.0.0.1"
    ∷ codes "0.0.0.0"
    ∷ codes "::1"
    ∷ codes "[::1]"
    ∷ codes "metadata.google.internal"
    ∷ codes "metadata.internal"
    ∷ []

abbrev pub is_metadata : Option (ℕ × ℕ) → Bool
is_metadata none = false
is_metadata (some (a, b)) = a == 169 && b == 254

-- `none` is the accepted case.
unfoldable pub check_blocked_ip : Ip → Option SsrfError
check_blocked_ip ip =
    if ip.is_loopback
    then some loopback
    else if ip.is_link_local_unicast || ip.is_link_local_multicast
    then some link_local
    else if is_metadata ip.to4
    then some metadata
    else none

-- An address that does not parse is passed over.
unfoldable pub check_parsed : Option Ip → Option SsrfError
check_parsed none = none
check_parsed (some ip) = check_blocked_ip ip

module _ (parse_ip : Text → Option Ip) where
  -- The loop over the resolved addresses.
  unfoldable pub check_resolved : List Text → Option SsrfError
  check_resolved [] = none
  check_resolved (addr ∷ addrs) = elim (check_parsed (parse_ip addr)) [
    | some e ↦ some e
    | none ↦ check_resolved addrs
  ]

  -- A host that does not resolve is let through.
  unfoldable pub check_lookup : Option (List Text) → Option SsrfError
  check_lookup none = none
  check_lookup (some addrs) = check_resolved addrs

  -- `SafeDialContext` after `SplitHostPort`: the address that is dialled. The resolver's list is
  -- documented to be non-empty; an empty one stops the source at `ips[0]`.
  unfoldable pub dial_checked : List Text → Option SsrfError → Result SsrfError Text
  dial_checked ips (some e) = err e
  dial_checked [] none = err no_host
  dial_checked (ip ∷ ips) none = ok ip

  unfoldable pub safe_dial : Option (List Text) → Result SsrfError Text
  safe_dial none = err no_host
  safe_dial (some ips) = dial_checked ips (check_resolved ips)

  module _ (parse_url : Text → Option Url) (lookup_host : Text → Option (List Text))
      (wide : ℕ → ℕ) where
    unfoldable pub check_address_of : Text → Option Ip → Option SsrfError
    check_address_of hostname (some ip) = check_blocked_ip ip
    check_address_of hostname none = check_lookup (lookup_host hostname)

    unfoldable pub check_hostname : Text → Option SsrfError
    check_hostname hostname =
        if any (λ blocked. text_eq hostname blocked) dangerous_hosts
        then some blocked_hostname
        else if has_suffix hostname (codes ".internal")
        then some blocked_hostname
        else check_address_of hostname (parse_ip hostname)

    unfoldable pub check_url : Option Url → Option SsrfError
    check_url none = some invalid_url
    check_url (some u) =
        if not (text_eq u.scheme (codes "http")) && not (text_eq u.scheme (codes "https"))
        then some bad_scheme
        else check_hostname (to_lower wide u.hostname)

    unfoldable pub validate_webhook_url : Text → Option SsrfError
    validate_webhook_url raw_url =
        if null raw_url then some empty_url else check_url (parse_url raw_url)
