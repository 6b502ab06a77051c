-- ===== src/Caddy/Upstream/Plain.antt =====
-- What is accepted has no brace and no newline.
use pdai_server_panel.Common.{Bool, true, false, Option, none, [], ◌∷◌, ◌≡◌, refl, arith}
use pdai_server_panel.Text.{Text, contains_any}
use pdai_server_panel.Caddy.Domain.{caddy_special}
use pdai_server_panel.Caddy.Directives.{value_special, validate_caddy_value}
use pdai_server_panel.Caddy.Upstream.{validate_upstream, validate_ip_range}
use pdai_server_panel.Caddy.Render.Lines.{is_plain}

special-plain : (s : Text) → contains_any s caddy_special ≡ false → is_plain s ≡ true
unfolding contains_any
special-plain [] h = refl
special-plain (c ∷ s) h = ground (arith, special-plain s)

value-plain : (s : Text) → contains_any s value_special ≡ false → is_plain s ≡ true
unfolding contains_any
value-plain [] h = refl
value-plain (c ∷ s) h = ground (arith, value-plain s)

pub validate_caddy_value-plain : (s : Text) → validate_caddy_value s ≡ true → is_plain s ≡ true
unfolding validate_caddy_value
validate_caddy_value-plain [] h = refl
validate_caddy_value-plain (c ∷ s) h = value-plain (c ∷ s) (ground arith)

pub validate_upstream-plain :
    (split_host_port : Text → Option (Text × Text)) (s : Text)
    → validate_upstream split_host_port s ≡ none
    → is_plain s ≡ true
unfolding validate_upstream
validate_upstream-plain f s h = special-plain s (ground arith)

pub validate_ip_range-plain :
    (parse_cidr parse_ip : Text → Bool) (s : Text)
    → validate_ip_range parse_cidr parse_ip s ≡ none
    → is_plain s ≡ true
unfolding validate_ip_range
validate_ip_range-plain c i s h = special-plain s (ground arith)
