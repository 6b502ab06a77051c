-- ===== src/Caddy/Domain.antt =====
-- internal/caddy/validate.go, site addresses: `domainRegex`, `ValidateDomain`, `splitDomainPort`,
-- `normalizeDomainAddress`, `DomainHost`. An error of the source is a constructor of `DomainError`.
pub mod Pattern
pub mod Split
pub mod Accepted
pub mod Host
use pdai_server_panel.Common.{
  ℕ, Bool, true, false, ◌&&◌, ◌||◌, not, Option, none, some, [], ◌∷◌, ltb, leb, ◌==◌, if◌then◌else◌,
  all, null,
}
use pdai_server_panel.Text.{
  Text, codes, byte_len, is_digit, is_alnum, cut_last, contains_any, decimal, has_prefix,
  trim_prefix, trim_space, to_lower,
}
use pdai_server_panel.Regex.{Regex, chr, seq, star, lit, opt, at_most, match_string}

pub data DomainError : Type 0 where
  empty too_long host_too_long bad_characters bad_format bad_port : DomainError

abbrev pub is_label_char : ℕ → Bool
is_label_char c = is_alnum c || c == b'-'

-- [a-zA-Z0-9]([a-zA-Z0-9\-]{0,61}[a-zA-Z0-9])?
unfoldable pub label_regex : Regex
label_regex = seq (chr is_alnum) (opt (seq (at_most 61 (chr is_label_char)) (chr is_alnum)))

-- (\.label)*(\:\d{1,5})?
unfoldable pub rest_regex : Regex
unfolding label_regex
rest_regex =
    seq (star (seq (lit b'.') label_regex))
      (opt (seq (lit b':') (seq (chr is_digit) (at_most 4 (chr is_digit)))))

-- ^(\*\.)?label(\.label)*(\:\d{1,5})?$
unfoldable pub domain_regex : Regex
unfolding label_regex rest_regex
domain_regex = seq (opt (seq (lit b'*') (lit b'.'))) (seq label_regex rest_regex)

pub record HostPort : Type 0 where
  pub host : Text
  pub port : Text
  pub has_port : Bool

unfoldable pub host_port : Text → Option (Text × Text) → HostPort
host_port domain none = record { host = domain; port = []; has_port = false }
host_port domain (some (host, port)) =
    if null port || not (all is_digit port)
    then record { host = domain; port = []; has_port = false }
    else record { host = host; port = port; has_port = true }

unfoldable pub split_domain_port : Text → HostPort
unfolding cut_last host_port
split_domain_port domain = host_port domain (cut_last b':' domain)

-- " \t\n\r{}\"'`;#$\\"
abbrev pub caddy_special : Text
caddy_special = b' ' ∷ 9 ∷ 10 ∷ 13 ∷ b'{' ∷ b'}' ∷ 34 ∷ 39 ∷ b'`' ∷ b';' ∷ b'#' ∷ b'$' ∷ 92 ∷ []

-- `none` is the accepted case. A port of more digits than an `int` holds is past 65535 too.
unfoldable pub validate_domain : Text → Option DomainError
validate_domain domain =
    let hp = split_domain_port domain in
    if null domain
    then some empty
    else if ltb 255 (byte_len domain)
    then some too_long
    else if ltb 253 (byte_len hp.host)
    then some host_too_long
    else if contains_any domain caddy_special
    then some bad_characters
    else if not (match_string domain_regex domain)
    then some bad_format
    else if hp.has_port && (ltb (decimal 0 hp.port) 1 || ltb 65535 (decimal 0 hp.port))
    then some bad_port
    else none

-- Without its scheme, if it has one.
unfoldable pub strip_scheme : Text → Text
strip_scheme address =
    if has_prefix address (codes "http://")
    then trim_prefix address (codes "http://")
    else if has_prefix address (codes "https://")
    then trim_prefix address (codes "https://")
    else address

pub data Normalized : Type 0 where
  rejected : DomainError → Normalized
  accepted : (exact host : Text) → (has_port : Bool) → Normalized

unfoldable pub accept : Text → Option DomainError → Normalized
accept address (some e) = rejected e
accept address none =
    let hp = split_domain_port address in
    accepted address (if hp.has_port then hp.host else address) hp.has_port

unfoldable pub normalize_domain_address : (ℕ → ℕ) → Text → Normalized
normalize_domain_address wide address =
    let a = strip_scheme (to_lower wide (trim_space address)) in accept a (validate_domain a)

unfoldable pub domain_host : Text → Text
domain_host domain =
    let d = strip_scheme (trim_space domain) in
    let hp = split_domain_port d in if hp.has_port then hp.host else d
