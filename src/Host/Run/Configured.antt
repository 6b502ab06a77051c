-- ===== src/Host/Run/Configured.antt =====
-- The Caddyfile that is written after any calls.
use mathlib.Core.List.{map}
use pdai_server_panel.Common.{
  ℕ, zero, suc, if◌then◌else◌, Bool, true, false, Option, none, some, List, [], ◌∷◌, ◌≡◌, ◌==◌, All,
  In, ℤ,
}
use pdai_server_panel.Text.{Text, split}
use pdai_server_panel.Model.{Host, HostDomain, Certificate, DnsProvider}
use pdai_server_panel.Caddy.Directives.Balance.{Balanced}
use pdai_server_panel.Caddy.Directives.Sanitized.{effective}
use pdai_server_panel.Caddy.Render.Lines.{is_plain}
use pdai_server_panel.Caddy.Render.Sorted.{Keeps}
use pdai_server_panel.Caddy.Render.Sites.{IsRenderable}
use pdai_server_panel.Caddy.Render.Rendered.{render_caddyfile-Balanced}
use pdai_server_panel.Host.Claim.Kept.{IsSound}
use pdai_server_panel.Host.Checks.{Library}
use pdai_server_panel.Host.Create.Made.{JoinsPlain}
use pdai_server_panel.Host.Apply.{
  find_certificate, with_certificate, certificate_of, resolve_certificate, find_provider, caddyfile,
}
use pdai_server_panel.Host.Run.{Call, after_calls}
use pdai_server_panel.Host.Run.Rendered.{certified-IsRenderable, IsAllowed, after_calls-IsSound}

abbrev pub PlainPaths : Certificate → Type 0
PlainPaths c = (is_plain c.cert_path ≡ true) × (is_plain c.key_path ≡ true)

abbrev PlainFound : Option Certificate → Type 0
PlainFound none = Unit
PlainFound (some c) = PlainPaths c

find_certificate-PlainFound :
    (id : ℕ) (certs : List Certificate)
    → All PlainPaths certs
    → PlainFound (find_certificate id certs)
unfolding find_certificate
find_certificate-PlainFound id [] h = tt
find_certificate-PlainFound id (c ∷ cs) (h, hs) =
    go (find_certificate id cs) (c.id == id) (find_certificate-PlainFound id cs hs)
  where
    go :
        (o : Option Certificate) (b : Bool)
        → PlainFound o
        → PlainFound (elim o [ some d ↦ some d | none ↦ if b then some c else none ])
    go (some d) b k = k
    go none true k = h
    go none false k = tt

certificate_of-PlainFound :
    (certs : List Certificate) (o : Option ℕ)
    → All PlainPaths certs
    → PlainFound (certificate_of certs o)
certificate_of-PlainFound certs none h = tt
certificate_of-PlainFound certs (some zero) h = tt
certificate_of-PlainFound certs (some (suc id)) h = find_certificate-PlainFound (suc id) certs h

-- A certificate's paths in place of the host's own.
with_certificate-IsRenderable :
    (h : Host) (o : Option Certificate)
    → IsRenderable h
    → PlainFound o
    → IsRenderable (with_certificate h o)
with_certificate-IsRenderable h none r k = r
with_certificate-IsRenderable h (some c) r k =
    certified-IsRenderable h c.cert_path c.key_path r k.0 k.1

resolve-IsRenderable :
    (certs : List Certificate) (hosts : List Host)
    → All PlainPaths certs
    → All IsSound hosts
    → All IsRenderable (map (resolve_certificate certs) hosts)
unfolding resolve_certificate
resolve-IsRenderable certs [] k a = tt
resolve-IsRenderable certs (h ∷ hs) k ((r, s), rest) = (
  with_certificate-IsRenderable h (certificate_of certs h.certificate_id) r
      (certificate_of-PlainFound certs h.certificate_id k),
  resolve-IsRenderable certs hs k rest,
)

module _ (sort : (A : Type 0) → (A → ℤ) → List A → List A) (keeps_sort : Keeps sort)
    (parse_json : Text → Option (Text → Text)) (log_dir : Text) (clean : is_plain log_dir ≡ true)
    (lib : Library) (plain_hash : (p h : Text) → lib.hash_password p ≡ some h → is_plain h ≡ true)
    (keeps : (ds : List HostDomain) (d : HostDomain) → In d (lib.order_domains ds) → In d ds)
    (joins : JoinsPlain lib) where
  -- Take a sort and an order of rows that put nothing into a list, and hashes, joined paths, a
  -- log directory and a time without braces and newlines. From hosts that can be rendered and
  -- have valid domains, after any calls of create, update, toggle, delete, clone, import and of
  -- the change of certificate paths, accepted or refused, the Caddyfile that ApplyConfig makes
  -- has balanced braces. Creates must have passed the checks of upstreams and ranges, and paths
  -- of certificates and imported basic auths must have no brace and no newline.
  pub after_calls-Balanced :
      (cs : List Call) (hosts : List Host) (certs : List Certificate) (providers : List DnsProvider)
      (now : Text)
      → All (IsAllowed lib) cs
      → All IsSound hosts
      → All PlainPaths certs
      → is_plain now ≡ true
      → Balanced (
          effective (
            split
              (λ c. c == 10)
              (caddyfile sort lib.wide parse_json log_dir now certs providers
                (after_calls lib cs hosts))))
  unfolding caddyfile
  after_calls-Balanced cs hosts certs providers now k a p n =
      render_caddyfile-Balanced sort keeps_sort lib.wide parse_json log_dir
        (find_provider providers) clean now _ n
        (resolve-IsRenderable certs (after_calls lib cs hosts) p
          (after_calls-IsSound lib plain_hash keeps joins cs hosts k a))
