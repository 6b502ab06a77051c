-- ===== src/Caddy/Domain/Accepted.antt =====
-- `ValidateDomain` and `normalizeDomainAddress`: what they accept.
use pdai_server_panel.Common.{
  ℕ, true, false, ◌||◌, ◌≡◌, refl, ◌↔◌, ◌≤◌, none, [], ◌∷◌, arith, ◌==◌, all, any, null,
}
use pdai_server_panel.Text.{Text, byte_len, contains_any, decimal}
use pdai_server_panel.Regex.Matching.{Matches, match_string_iff}
use pdai_server_panel.Caddy.Domain.{domain_regex, split_domain_port, caddy_special, validate_domain}
use pdai_server_panel.Caddy.Domain.Pattern.{IsAddress, Matches-IsAddress, is_tail_char}

-- The domains that may be written into a Caddyfile.
pub record IsDomain (d : Text) : Type 0 where
  pub matches : Matches domain_regex d
  pub short : byte_len d ≤ 255
  pub host_short : byte_len (split_domain_port d).host ≤ 253
  pub port_low : (split_domain_port d).has_port ≡ true → 1 ≤ decimal 0 (split_domain_port d).port
  pub port_high :
      (split_domain_port d).has_port ≡ true → decimal 0 (split_domain_port d).port ≤ 65535

plain_char :
    (c : ℕ) → (is_tail_char c || c == b'*') ≡ true → any (λ d. c == d) caddy_special ≡ false
plain_char c h = ground arith

tail-contains_any : (s : Text) → all is_tail_char s ≡ true → contains_any s caddy_special ≡ false
unfolding contains_any
tail-contains_any [] h = refl
tail-contains_any (c ∷ s) h = rw (plain_char c (ground arith)) (tail-contains_any s (ground arith))

address_plain : (d : Text) → IsAddress d → (null d ≡ false) × (contains_any d caddy_special ≡ false)
unfolding contains_any
address_plain d a =
    rw (← a.parts) (
      refl,
      rw (plain_char a.first (ground (arith, a.starts))) (tail-contains_any a.rest a.follows),
    )

-- `ValidateDomain` accepts exactly the texts of its pattern that are at most 255 bytes long, with
-- a host of at most 253 bytes and, if they have a port, one between 1 and 65535.
pub validate_domain_iff : (d : Text) → (validate_domain d ≡ none) ↔ IsDomain d
unfolding validate_domain
validate_domain_iff d = (
  λ h. record {
    matches = (match_string_iff domain_regex d).0 (ground arith);
    short = ground arith;
    host_short = ground arith;
    port_low = λ p. ground arith;
    port_high = λ p. ground arith;
  },
  λ v.
      let a : (null d ≡ false) × (contains_any d caddy_special ≡ false) =
        address_plain d (Matches-IsAddress v.matches) in
      rw (a.0, a.1, (match_string_iff domain_regex d).1 v.matches) (ground arith),
)
