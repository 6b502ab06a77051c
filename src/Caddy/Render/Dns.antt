-- ===== src/Caddy/Render/Dns.antt =====
-- The TLS block of a DNS provider: its values are checked when it is rendered.
use pdai_server_panel.Common.{
  Bool, true, false, ◌&&◌, Option, none, some, List, [], ◌∷◌, ◌++◌, ◌≡◌, inl, inr, refl, arith,
  Bool-cases, if◌then◌else◌,
}
use pdai_server_panel.Text.{
  Text, codes, text_eq, trim_left, trim_space, trim_right, is_space, has_prefix,
}
use pdai_server_panel.Model.{DnsProvider}
use pdai_server_panel.Caddy.Directives.{brace_depth, brace_step, line_text}
use pdai_server_panel.Caddy.Render.Parts.{
  or_text, safe_dns_value, usable, dns_pair, cloudflare_lines, pair_lines, route53_lines,
  config_lines, render_dns_tls,
}
use pdai_server_panel.Caddy.Render.Lines.{
  is_plain, IsBlock, nil-IsBlock, append-IsBlock, plain-IsBlock, nest-IsBlock, plain-append,
}
use pdai_server_panel.Caddy.Render.Blocks.{dns-plain, both-plain, plain-both-one_line}

safe-plain : (v : Text) → safe_dns_value v ≡ true → is_plain v ≡ true
unfolding safe_dns_value
safe-plain v h = dns-plain v (ground arith)

usable-plain : (v : Text) → usable v ≡ true → is_plain v ≡ true
usable-plain v h = safe-plain v (ground arith)

-- The lines between "tls {" and its brace.
tls-IsBlock :
    (body : List Text)
    → IsBlock body
    → IsBlock ((codes "\ttls {" ∷ []) ++ (body ++ (codes "\t}" ∷ [])))
unfolding brace_depth brace_step line_text trim_left trim_space trim_right is_space has_prefix
tls-IsBlock body b =
    nest-IsBlock b't' (codes "\ttls {") _ (codes "\t}") refl refl refl (λ d. refl) refl (λ d. refl)
      refl b

-- The same for "dns … {".
dns-IsBlock :
    (provider : Text) (body : List Text)
    → is_plain provider ≡ true
    → IsBlock body
    → IsBlock
        (((codes "\t\tdns " ++ (provider ++ codes " {")) ∷ []) ++ (body ++ (codes "\t\t}" ∷ [])))
unfolding brace_depth brace_step line_text trim_left trim_space trim_right is_space has_prefix
dns-IsBlock provider body p b =
    nest-IsBlock b'd' (codes "\t\tdns " ++ (provider ++ codes " {")) _ (codes "\t\t}") refl refl
      refl (λ d. plain-append d provider _ p) (plain-both-one_line provider _ p refl) (λ d. refl)
      refl b

cloudflare_lines-IsBlock : (cfg : Text → Text) → IsBlock (cloudflare_lines cfg)
unfolding cloudflare_lines
cloudflare_lines-IsBlock cfg = go (usable (cfg (codes "api_token"))) refl
  where
    go :
        (b : Bool)
        → usable (cfg (codes "api_token")) ≡ b
        → IsBlock (
            if b
            then codes "\ttls {"
              ∷ (codes "\t\tdns cloudflare " ++ cfg (codes "api_token"))
              ∷ codes "\t}"
              ∷ []
            else [])
    go false e = nil-IsBlock
    go true e = tls-IsBlock _ (
        plain-IsBlock (codes "\t\tdns cloudflare " ++ cfg (codes "api_token"))
          (usable-plain (cfg (codes "api_token")) e))

pair_lines-IsBlock :
    (provider name name' : Text) (cfg : Text → Text)
    → is_plain provider ≡ true
    → is_plain name ≡ true
    → is_plain name' ≡ true
    → IsBlock (pair_lines provider name name' cfg)
unfolding pair_lines
pair_lines-IsBlock provider name name' cfg p n n' =
    go (usable (cfg name) && usable (cfg name')) refl
  where
    go :
        (b : Bool)
        → (usable (cfg name) && usable (cfg name')) ≡ b
        → IsBlock (if b then dns_pair provider name (cfg name) name' (cfg name') else [])
    go false e = nil-IsBlock
    go true e = tls-IsBlock _ (
        dns-IsBlock provider _ p (
          append-IsBlock
            (plain-IsBlock (codes "\t\t\t" ++ (name ++ (codes " " ++ cfg name)))
              (both-plain name _ n (usable-plain (cfg name) (ground arith))))
            (plain-IsBlock (codes "\t\t\t" ++ (name' ++ (codes " " ++ cfg name')))
              (both-plain name' _ n' (usable-plain (cfg name') (ground arith))))))

route53_lines-IsBlock : (cfg : Text → Text) → IsBlock (route53_lines cfg)
unfolding route53_lines
route53_lines-IsBlock cfg =
    go (or_text (cfg (codes "region")) (codes "us-east-1")) (cfg (codes "access_key_id"))
      (cfg (codes "secret_access_key"))
  where
    lines : Text → Text → Text → List Text
    lines r a s =
        codes "\ttls {"
        ∷ codes "\t\tdns route53 {"
        ∷ (codes "\t\t\tregion " ++ r)
        ∷ (codes "\t\t\taccess_key_id " ++ a)
        ∷ (codes "\t\t\tsecret_access_key " ++ s)
        ∷ codes "\t\t}"
        ∷ codes "\t}"
        ∷ []

    block :
        (r a s : Text)
        → is_plain r ≡ true
        → is_plain a ≡ true
        → is_plain s ≡ true
        → IsBlock (lines r a s)
    block r a s p q t = tls-IsBlock _ (
        dns-IsBlock (codes "route53") _ refl (
          append-IsBlock (plain-IsBlock (codes "\t\t\tregion " ++ r) p) (
            append-IsBlock (plain-IsBlock (codes "\t\t\taccess_key_id " ++ a) q)
              (plain-IsBlock (codes "\t\t\tsecret_access_key " ++ s) t))))

    go :
        (r a s : Text)
        → IsBlock (if usable a && usable s && safe_dns_value r then lines r a s else [])
    go r a s = elim (Bool-cases (usable a && usable s && safe_dns_value r)) [
      | inr e ↦ rw e nil-IsBlock
      | inl e ↦ rw e (
          block r a s (safe-plain r (ground arith)) (usable-plain a (ground arith))
            (usable-plain s (ground arith)))
    ]

config_lines-IsBlock :
    (provider : Text) (o : Option (Text → Text)) → IsBlock (config_lines provider o)
unfolding config_lines
config_lines-IsBlock provider none = nil-IsBlock
config_lines-IsBlock provider (some cfg) =
    go (text_eq provider (codes "cloudflare")) (text_eq provider (codes "alidns"))
      (text_eq provider (codes "tencentcloud")) (text_eq provider (codes "route53"))
  where
    go :
        (a b c d : Bool)
        → IsBlock (
            if a
            then cloudflare_lines cfg
            else if b
            then pair_lines (codes "alidns") (codes "access_key_id") (codes "access_key_secret") cfg
            else if c
            then pair_lines (codes "tencentcloud") (codes "secret_id") (codes "secret_key") cfg
            else if d
            then route53_lines cfg
            else [])
    go true b c d = cloudflare_lines-IsBlock cfg
    go false true c d =
        pair_lines-IsBlock (codes "alidns") (codes "access_key_id") (codes "access_key_secret") cfg
          refl refl refl
    go false false true d =
        pair_lines-IsBlock (codes "tencentcloud") (codes "secret_id") (codes "secret_key") cfg refl
          refl refl
    go false false false true = route53_lines-IsBlock cfg
    go false false false false = nil-IsBlock

-- Whatever a provider's configuration says, its block closes what it opens.
pub render_dns_tls-IsBlock :
    (parse_json : Text → Option (Text → Text)) (p : DnsProvider)
    → IsBlock (render_dns_tls parse_json p)
unfolding render_dns_tls
render_dns_tls-IsBlock parse_json p = config_lines-IsBlock p.provider (parse_json p.config)
