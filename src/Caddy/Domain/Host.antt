-- ===== src/Caddy/Domain/Host.antt =====
-- The hosts that `normalizeDomainAddress` and `DomainHost` find.
use pdai_server_panel.Common.{
  ℕ, Bool, true, false, ◌||◌, ◌≡◌, refl, Option, none, some, [], ◌∷◌, arith, ◌==◌, all,
}
use pdai_server_panel.Text.{Text, codes, is_space, trim_space}
use pdai_server_panel.Text.Trims.{Without, trim_space-Without, has_prefix-all}
use pdai_server_panel.Caddy.Domain.{
  DomainError, accepted, accept, strip_scheme, validate_domain, split_domain_port,
  normalize_domain_address, domain_host,
}
use pdai_server_panel.Caddy.Domain.Pattern.{Matches-IsAddress, is_tail_char}
use pdai_server_panel.Caddy.Domain.Accepted.{IsDomain, validate_domain_iff}

abbrev pub is_address_char : ℕ → Bool
is_address_char c = is_tail_char c || c == b'*'

address_char_not_space : (c : ℕ) → is_address_char c ≡ true → is_space c ≡ false
unfolding is_space
address_char_not_space c h = ground arith

pub address-Without : (s : Text) → all is_address_char s ≡ true → Without is_space s
address-Without [] h = refl
address-Without (c ∷ s) h = ground (arith, address_char_not_space c, address-Without s)

tail-address : (s : Text) → all is_tail_char s ≡ true → all is_address_char s ≡ true
tail-address [] h = refl
tail-address (c ∷ s) h = ground (arith, tail-address s)

pub IsDomain-chars : {d : Text} → IsDomain d → all is_address_char d ≡ true
IsDomain-chars v =
    let a = Matches-IsAddress v.matches in
    rw (← a.parts) (ground (arith, a.starts, tail-address a.rest a.follows))

-- An accepted address has neither spaces around it nor a scheme.
strip_scheme-IsDomain : {d : Text} → IsDomain d → strip_scheme (trim_space d) ≡ d
unfolding strip_scheme
strip_scheme-IsDomain {d} v = rw (trim_space-Without d (address-Without d (IsDomain-chars v))) (
    ground (
      arith,
      has_prefix-all is_address_char d (codes "http://") (IsDomain-chars v),
      has_prefix-all is_address_char d (codes "https://") (IsDomain-chars v),
    ))

accept-IsDomain :
    (a : Text) (o : Option DomainError) {exact host : Text} {p : Bool}
    → validate_domain a ≡ o
    → accept a o ≡ accepted exact host p
    → IsDomain exact × (domain_host exact ≡ host) × ((split_domain_port exact).has_port ≡ p)
unfolding accept domain_host
accept-IsDomain a (some e) v h = cc
accept-IsDomain a none {exact} {host} {p} v h =
    let d : IsDomain a = (validate_domain_iff a).0 v in
    let e : a ≡ exact = ground arith in
    rw (← e) (d, rw (strip_scheme-IsDomain d) (ground arith), ground arith)

-- When `normalizeDomainAddress` accepts an address, the normalised form that it returns is a valid
-- domain, and the host and the port flag returned with it are those that `DomainHost` and
-- `splitDomainPort` find in this form.
pub normalize_domain_address-IsDomain :
    (wide : ℕ → ℕ) (address : Text) {exact host : Text} {p : Bool}
    → normalize_domain_address wide address ≡ accepted exact host p
    → IsDomain exact × (domain_host exact ≡ host) × ((split_domain_port exact).has_port ≡ p)
unfolding normalize_domain_address
normalize_domain_address-IsDomain wide address h = accept-IsDomain _ _ refl h
