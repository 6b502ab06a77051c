-- ===== src/Caddy/Upstream.antt =====
-- internal/caddy/validate.go, `ValidateUpstream`, `ValidateIPRange` and `ExtractSiteAddresses`.
-- net.SplitHostPort, net.ParseCIDR and net.ParseIP are parameters; of the last two only whether
-- they succeed is used.
pub mod Addresses
pub mod Plain
use mathlib.Core.List.{map}
use pdai_server_panel.Common.{
  ℕ, Bool, true, false, ◌&&◌, ◌||◌, not, Option, none, some, List, [], ◌∷◌, ◌++◌, ◌==◌,
  if◌then◌else◌, ltb, null, any,
}
use pdai_server_panel.Text.{
  Text, codes, text_eq, contains_any, has_prefix, has_suffix, trim_prefix, trim_suffix, trim_space,
  split, fields, to_lower, byte_len,
}
use pdai_server_panel.Caddy.Domain.{
  caddy_special, Normalized, rejected, accepted, normalize_domain_address,
}

pub data UpstreamError : Type 0 where
  empty_upstream bad_upstream empty_host long_host bad_port_number : UpstreamError

-- Without its scheme, if it has one.
unfoldable pub clean_upstream : Text → Text
clean_upstream addr =
    if has_prefix addr (codes "http://")
    then trim_prefix addr (codes "http://")
    else if has_prefix addr (codes "https://")
    then trim_prefix addr (codes "https://")
    else addr

unfoldable pub check_host : Text → Text → Option UpstreamError
check_host host port =
    if null host
    then some empty_host
    else if ltb 253 (byte_len host)
    then some long_host
    else if not (null port) && ltb 5 (byte_len port)
    then some bad_port_number
    else none

-- An address that does not split is a host without a port.
unfoldable pub check_split : Text → Option (Text × Text) → Option UpstreamError
check_split clean none = check_host clean []
check_split clean (some (host, port)) = check_host host port

unfoldable pub validate_upstream : (Text → Option (Text × Text)) → Text → Option UpstreamError
validate_upstream split_host_port addr =
    if null addr
    then some empty_upstream
    else if contains_any addr caddy_special
    then some bad_upstream
    else check_split (clean_upstream addr) (split_host_port (clean_upstream addr))

pub data RangeError : Type 0 where
  empty_range bad_range bad_cidr bad_ip : RangeError

unfoldable pub validate_ip_range : (Text → Bool) → (Text → Bool) → Text → Option RangeError
validate_ip_range parse_cidr parse_ip range =
    if null range
    then some empty_range
    else if contains_any range caddy_special
    then some bad_range
    else if any (λ c. c == b'/') range
    then if parse_cidr range then none else some bad_cidr
    else if parse_ip range
    then none
    else some bad_ip

-- The names of one header, with commas as spaces; one that is refused is passed over.
abbrev pub comma_to_space : ℕ → ℕ
comma_to_space c = if c == b',' then b' ' else c

unfoldable pub add_address : (ℕ → ℕ) → Normalized → List Text → List Text
add_address wide (rejected e) addrs = addrs
add_address wide (accepted exact host has_port) addrs = to_lower wide exact ∷ addrs

unfoldable pub add_addresses : (ℕ → ℕ) → List Text → List Text → List Text
add_addresses wide [] addrs = addrs
add_addresses wide (raw ∷ raws) addrs =
    add_addresses wide raws (add_address wide (normalize_domain_address wide raw) addrs)

-- One round of the loop over the lines.
unfoldable pub line_addresses : (ℕ → ℕ) → Text → List Text → List Text
line_addresses wide line addrs =
    let trimmed = trim_space line in
    let header = trim_space (trim_suffix trimmed (codes "{")) in
    if null trimmed || has_prefix trimmed (codes "#") || text_eq trimmed (codes "{")
    then addrs
    else if not (has_suffix trimmed (codes "{"))
    then addrs
    else if null header
    then addrs
    else add_addresses wide (fields (map comma_to_space header)) addrs

unfoldable pub all_addresses : (ℕ → ℕ) → List Text → List Text → List Text
all_addresses wide [] addrs = addrs
all_addresses wide (line ∷ lines) addrs = all_addresses wide lines (line_addresses wide line addrs)

-- The keys of the set; one that is added twice stands twice.
unfoldable pub extract_site_addresses : (ℕ → ℕ) → Text → List Text
extract_site_addresses wide content = all_addresses wide (split (λ c. c == 10) content) []
