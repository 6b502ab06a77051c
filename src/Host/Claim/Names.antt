-- ===== src/Host/Claim/Names.antt =====
-- Valid domains: all ways to compare them are one.
use pdai_server_panel.Common.{
  ℕ, Bool, true, false, ◌||◌, ◌&&◌, not, [], ◌∷◌, ◌==◌, ◌≡◌, refl, arith, all, ltb, ◌≤◌, ◌<◌,
}
use pdai_server_panel.Text.{Text, to_lower, is_space}
use pdai_server_panel.Text.Trims.{trim_space-Without}
use pdai_server_panel.Caddy.Domain.Accepted.{IsDomain}
use pdai_server_panel.Caddy.Domain.Pattern.{Matches-IsAddress, is_tail_char}
use pdai_server_panel.Host.Claim.{sql_lower, key}

-- Visible ASCII.
abbrev is_ascii : ℕ → Bool
is_ascii c = not (is_space c) && ltb c 0x80

visible : (c : ℕ) → 33 ≤ c → c < 128 → is_space c ≡ false
unfolding is_space
visible c h k = ground arith

address_char-ascii : (c : ℕ) → (is_tail_char c || c == b'*') ≡ true → is_ascii c ≡ true
address_char-ascii c h = rw (visible c (ground arith) (ground arith)) (ground arith)

tail-ascii : (s : Text) → all is_tail_char s ≡ true → all is_ascii s ≡ true
tail-ascii [] h = refl
tail-ascii (c ∷ s) h = rw (address_char-ascii c (ground arith)) (tail-ascii s (ground arith))

pub domain-ascii : {d : Text} → IsDomain d → all is_ascii d ≡ true
domain-ascii v =
    let a = Matches-IsAddress v.matches in
    rw (← a.parts)
      (rw (address_char-ascii a.first (ground (arith, a.starts))) (tail-ascii a.rest a.follows))

lower-ascii : (f g : ℕ → ℕ) (s : Text) → all is_ascii s ≡ true → to_lower f s ≡ to_lower g s
unfolding to_lower
lower-ascii f g [] h = refl
lower-ascii f g (c ∷ s) h = ground (arith, lower-ascii f g s)

ascii-spaceless : (s : Text) → all is_ascii s ≡ true → all (λ c. not (is_space c)) s ≡ true
ascii-spaceless [] h = refl
ascii-spaceless (c ∷ s) h = ground (arith, ascii-spaceless s)

-- Go's key of a valid domain is SQL's.
pub key-IsDomain : (wide : ℕ → ℕ) {d : Text} → IsDomain d → key wide d ≡ sql_lower d
key-IsDomain wide {d} v =
    rw (trim_space-Without d (ascii-spaceless d (domain-ascii v)))
      (lower-ascii wide (λ c. c) d (domain-ascii v))

pub lower-IsDomain : (f : ℕ → ℕ) {d : Text} → IsDomain d → to_lower f d ≡ sql_lower d
lower-IsDomain f {d} v = lower-ascii f (λ c. c) d (domain-ascii v)
