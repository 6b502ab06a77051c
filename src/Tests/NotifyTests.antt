-- ===== src/Tests/NotifyTests.antt =====
-- internal/notify/ssrf.go with a resolver that knows one name, of a private address.
use pdai_server_panel.Common.{ℕ, false, Option, none, some, List, [], ◌∷◌, ◌≡◌, refl, if◌then◌else◌}
use pdai_server_panel.Text.{Text, codes, text_eq, to_lower, has_suffix}
use pdai_server_panel.Notify.Ssrf.{
  Url, Ip, blocked_hostname, metadata, check_blocked_ip, check_parsed, check_resolved, check_lookup,
  check_address_of, check_hostname, check_url, validate_webhook_url,
}

abbrev private_ip : Ip
private_ip = record {
  is_loopback = false;
  is_link_local_unicast = false;
  is_link_local_multicast = false;
  to4 = some (10, 0);
}

abbrev metadata_ip : Ip
metadata_ip = record private_ip { to4 = some (169, 254) }

abbrev parse_ip : Text → Option Ip
parse_ip t =
    if text_eq t (codes "10.0.0.5")
    then some private_ip
    else if text_eq t (codes "169.254.169.254")
    then some metadata_ip
    else none

abbrev hook : Text
hook = codes "https://Hooks.example/x"

abbrev parse_url : Text → Option Url
parse_url t =
    if text_eq t hook
    then some (record { scheme = codes "https"; hostname = codes "Hooks.example" })
    else some (record { scheme = codes "http"; hostname = codes "LOCALHOST" })

abbrev lookup_host : Text → Option (List Text)
lookup_host t = if text_eq t (codes "hooks.example") then some (codes "10.0.0.5" ∷ []) else none

abbrev same : ℕ → ℕ
same c = c

rebound : check_resolved parse_ip (codes "10.0.0.5" ∷ codes "169.254.169.254" ∷ []) ≡ some metadata
unfolding check_resolved check_parsed check_blocked_ip text_eq
rebound = refl

local_refused :
    validate_webhook_url parse_ip parse_url lookup_host same (codes "http://LOCALHOST")
    ≡ some blocked_hostname
unfolding validate_webhook_url check_url check_hostname check_address_of check_lookup check_resolved
    check_parsed check_blocked_ip text_eq to_lower has_suffix
local_refused = refl
