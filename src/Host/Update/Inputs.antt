-- ===== src/Host/Update/Inputs.antt =====
-- What the texts of a request are, once the request has passed its checks.
use mathlib.Core.List.{map}
use pdai_server_panel.Common.{
  ℕ, suc, true, Option, none, some, List, [], ◌∷◌, ◌≡◌, refl, ap, ◌∙◌, ◌==◌, arith, Option-cases,
  inl, inr, All, Bool-cases, Result, ok, err,
}
use pdai_server_panel.Text.{Text, codes, trim_space, trim_left, trim_right, split}
use pdai_server_panel.Model.{Upstream, Route, CustomHeader, AccessRule, BasicAuth}
use pdai_server_panel.Caddy.Directives.{validate_caddy_value, line_text}
use pdai_server_panel.Caddy.Directives.Balance.{Balanced}
use pdai_server_panel.Caddy.Directives.Sanitized.{effective}
use pdai_server_panel.Caddy.Directives.Trimmed.{effective-trim_space}
use pdai_server_panel.Caddy.SiteBlock.{validate_full_caddy_block_for_domains}
use pdai_server_panel.Caddy.SiteBlock.Accepted.{validate_full_caddy_block-IsSiteBlock}
use pdai_server_panel.Caddy.Upstream.Plain.{
  validate_upstream-plain, validate_ip_range-plain, validate_caddy_value-plain,
}
use pdai_server_panel.Caddy.Render.Lines.{is_plain}
use pdai_server_panel.Host.Request.{
  UpstreamInput, HeaderInput, AccessInput, BasicAuthInput, string_or_default, upstream_rows,
  header_rows, access_rows,
}
use pdai_server_panel.Host.Checks.{
  Library, HostError, or_else, upstream_error, range_error, directive_error, block_error,
  check_upstreams, check_ranges, check_value, check_headers,
}
use pdai_server_panel.Host.Rows.{with_ids, hashed, consed_auth, moved, remap_route}

pub or_else-none : (a b : Option HostError) → or_else a b ≡ none → (a ≡ none) × (b ≡ none)
or_else-none none b h = (refl, h)
or_else-none (some e) b h = absurd (ground (arith, h))

pub upstream_error-none : (e : Option _) → upstream_error e ≡ none → e ≡ none
upstream_error-none none h = refl
upstream_error-none (some e) h = absurd (ground (arith, h))

pub range_error-none : (e : Option _) → range_error e ≡ none → e ≡ none
range_error-none none h = refl
range_error-none (some e) h = absurd (ground (arith, h))

pub directive_error-none : (e : Option _) → directive_error e ≡ none → e ≡ none
directive_error-none none h = refl
directive_error-none (some e) h = absurd (ground (arith, h))

pub block_error-none : (e : Option _) → block_error e ≡ none → e ≡ none
block_error-none none h = refl
block_error-none (some e) h = absurd (ground (arith, h))

pub check_value-plain : (label s : Text) → check_value label s ≡ none → is_plain s ≡ true
unfolding check_value
check_value-plain label s h = validate_caddy_value-plain s (ground (arith, h))

pub string_or_default-plain :
    (s d : Text) → is_plain s ≡ true → is_plain d ≡ true → is_plain (string_or_default s d) ≡ true
string_or_default-plain [] d h k = k
string_or_default-plain (c ∷ s) d h k = h

pub check_upstreams-plain :
    (lib : Library) (host_id i : ℕ) (us : List UpstreamInput)
    → check_upstreams lib us ≡ none
    → All (λ (u : Upstream). is_plain u.address ≡ true) (upstream_rows host_id i us)
unfolding check_upstreams upstream_rows
check_upstreams-plain lib host_id i [] h = tt
check_upstreams-plain lib host_id i (u ∷ us) h =
    let (a, b) = or_else-none _ _ h in
    (
      validate_upstream-plain lib.split_host_port u.address (upstream_error-none _ a),
      check_upstreams-plain lib host_id (suc i) us b,
    )

pub with_ids-plain :
    (lib : Library) (i : ℕ) (us : List Upstream)
    → All (λ (u : Upstream). is_plain u.address ≡ true) us
    → All (λ (u : Upstream). is_plain u.address ≡ true) (with_ids lib i us)
unfolding with_ids
with_ids-plain lib i [] h = tt
with_ids-plain lib i (u ∷ us) (h, hs) = (h, with_ids-plain lib (suc i) us hs)

pub check_ranges-plain :
    (lib : Library) (host_id i : ℕ) (rs : List AccessInput)
    → check_ranges lib rs ≡ none
    → All (λ (r : AccessRule). is_plain r.ip_range ≡ true) (access_rows host_id i rs)
unfolding check_ranges access_rows
check_ranges-plain lib host_id i [] h = tt
check_ranges-plain lib host_id i (r ∷ rs) h =
    let (a, b) = or_else-none _ _ h in
    (
      validate_ip_range-plain lib.parse_cidr lib.parse_ip r.ip_range (range_error-none _ a),
      check_ranges-plain lib host_id (suc i) rs b,
    )

pub check_headers-plain :
    (host_id i : ℕ) (hs : List HeaderInput)
    → check_headers hs ≡ none
    → All
        (λ (c : CustomHeader). (is_plain c.name ≡ true) × (is_plain c.value ≡ true))
        (header_rows host_id i hs)
unfolding check_headers header_rows
check_headers-plain host_id i [] h = tt
check_headers-plain host_id i (x ∷ xs) h =
    let (a, b) = or_else-none _ _ h in
    let (c, d) = or_else-none _ _ b in
    (
      (
        check_value-plain (codes "header name") x.name a,
        check_value-plain (codes "header value") x.value c,
      ),
      check_headers-plain host_id (suc i) xs d,
    )

abbrev pub PlainAuths : List BasicAuth → Type 0
PlainAuths auths =
    All (λ (a : BasicAuth). (is_plain a.username ≡ true) × (is_plain a.password_hash ≡ true)) auths

moved-path : (r : Route) (o : Option ℕ) → (moved r o).path ≡ r.path
moved-path r none = refl
moved-path r (some id) = refl

pub remap_route-plain :
    (old new : List Upstream) (rs : List Route)
    → All (λ (r : Route). is_plain r.path ≡ true) rs
    → All (λ (r : Route). is_plain r.path ≡ true) (map (remap_route old new) rs)
unfolding remap_route
remap_route-plain old new [] h = tt
remap_route-plain old new (r ∷ rs) (h, hs) =
    (ap is_plain (moved-path r _) ∙ h, remap_route-plain old new rs hs)

trimmed-Balanced :
    (s : Text)
    → trim_space s ≡ []
    → Balanced (effective (split (λ c. c == 10) (trim_space (trim_space s))))
unfolding trim_space split line_text trim_left trim_right
trimmed-Balanced s e = rw e Balanced.done

pub full_block-Balanced :
    (wide : ℕ → ℕ) (domains : List Text) (s : Text)
    → validate_full_caddy_block_for_domains wide domains s ≡ none
    → Balanced (effective (split (λ c. c == 10) (trim_space (trim_space s))))
full_block-Balanced wide domains s h =
    rw (effective-trim_space (trim_space s)) (go (trim_space s) refl)
  where
    go : (t : Text) → trim_space s ≡ t → Balanced (effective (split (λ c. c == 10) (trim_space s)))
    go [] e = rw (← effective-trim_space (trim_space s)) (trimmed-Balanced s e)
    go (c ∷ t) e =
        let (first, lines, k, b) =
          validate_full_caddy_block-IsSiteBlock wide domains s (rw e refl) h in
        rw k b.balanced

abbrev pub PlainHashed : Result HostError (List BasicAuth) → Type 0
PlainHashed (ok auths) = PlainAuths auths
PlainHashed (err e) = Unit

consed_auth-plain :
    (a : BasicAuth) (r : Result HostError (List BasicAuth))
    → (is_plain a.username ≡ true) × (is_plain a.password_hash ≡ true)
    → PlainHashed r
    → PlainHashed (consed_auth a r)
consed_auth-plain a (ok t) p k = (p, k)
consed_auth-plain a (err e) p k = tt

-- The hashes are plain when those of the library are.
pub hashed-plain :
    (lib : Library) (host_id : ℕ)
    → ((p h : Text) → lib.hash_password p ≡ some h → is_plain h ≡ true)
    → (inputs : List BasicAuthInput) → PlainHashed (hashed lib host_id inputs)
unfolding hashed
hashed-plain lib host_id k [] = tt
hashed-plain lib host_id k (a ∷ rest) = elim (Bool-cases (validate_caddy_value a.username)) [
  | inr e ↦ rw e tt
  | inl e ↦ elim (Option-cases (lib.hash_password a.password)) [
    | inl f ↦ rw (e, f) tt
    | inr (x, f) ↦
        rw (e, f)
          (consed_auth-plain _ (hashed lib host_id rest)
            (validate_caddy_value-plain a.username e, k a.password x f)
            (hashed-plain lib host_id k rest))
  ]
]
