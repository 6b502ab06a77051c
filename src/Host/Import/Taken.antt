-- ===== src/Host/Import/Taken.antt =====
-- The hosts after an import.
use mathlib.Core.List.{map}
use pdai_server_panel.Common.{
  ℕ, true, Option, none, some, List, [], ◌∷◌, ◌++◌, ◌≡◌, refl, arith, All,
}
use pdai_server_panel.Text.{Text, codes, trim_space}
use pdai_server_panel.Model.{Host, HostDomain, Upstream, Route, CustomHeader, AccessRule, BasicAuth}
use pdai_server_panel.Caddy.Domain.{DomainError, validate_domain}
use pdai_server_panel.Caddy.Domain.Accepted.{IsDomain, validate_domain_iff}
use pdai_server_panel.Caddy.Directives.Trimmed.{effective-trim_space}
use pdai_server_panel.Caddy.Upstream.Plain.{validate_upstream-plain, validate_ip_range-plain}
use pdai_server_panel.Caddy.Render.Lines.{is_plain}
use pdai_server_panel.Host.Claim.Kept.{IsSound, AreDomains, domains-plain, join-IsSound}
use pdai_server_panel.Host.Checks.{Library, HostError, check_value}
use pdai_server_panel.Host.Update.Inputs.{
  or_else-none, upstream_error-none, range_error-none, directive_error-none, block_error-none,
  check_value-plain, string_or_default-plain, with_ids-plain, full_block-Balanced, PlainAuths,
}
use pdai_server_panel.Host.Clone.{cloned}
use pdai_server_panel.Host.Import.{
  host_values, import_upstream, import_header, first_error, domain_error, check_host_values,
  check_imported, imported, import_hosts, import_checked, import_all,
}

-- What an import does not check itself.
pub record IsImportable (h : Host) : Type 0 where
  pub cert : is_plain h.custom_cert_path ≡ true
  pub key : is_plain h.custom_key_path ≡ true
  pub auths : PlainAuths h.basic_auths

-- What a check gives for a row holds of what is made of each row.
first_error-All :
    {A B : Type 0} (Q : B → Type 0) (f : A → B) (check : A → Option HostError)
    → ((x : A) → check x ≡ none → Q (f x))
    → (xs : List A) → first_error check xs ≡ none
    → All Q (map f xs)
unfolding first_error
first_error-All Q f check k [] h = tt
first_error-All Q f check k (x ∷ xs) h =
    let (a, b) = or_else-none _ _ h in (k x a, first_error-All Q f check k xs b)

domain_error-none : (e : Option DomainError) → domain_error e ≡ none → e ≡ none
domain_error-none none h = refl
domain_error-none (some e) h = absurd (ground (arith, h))

auths-plain :
    (id : ℕ) (auths : List BasicAuth)
    → PlainAuths auths
    → PlainAuths (map (λ (a : BasicAuth). record a { id = 0; host_id = id }) auths)
auths-plain id [] h = tt
auths-plain id (a ∷ rest) (h, hs) = (h, auths-plain id rest hs)

check_host_values-plain :
    (h : Host) → check_host_values h ≡ none → All (λ t. is_plain t ≡ true) (host_values h)
unfolding check_host_values first_error
check_host_values-plain h k = go (host_values h) k
  where
    go :
        (ts : List Text)
        → first_error (check_value (codes "field")) ts ≡ none
        → All (λ t. is_plain t ≡ true) ts
    go [] e = tt
    go (t ∷ ts) e =
        let (a, b) = or_else-none _ _ e in (check_value-plain (codes "field") t a, go ts b)

domain_error-IsDomain : (d : Text) → domain_error (validate_domain d) ≡ none → IsDomain d
domain_error-IsDomain d h = (validate_domain_iff d).0 (domain_error-none _ h)

module _ (lib : Library) where
  imported-IsSound :
      (id : ℕ) (h : Host)
      → IsImportable h
      → check_imported lib h ≡ none
      → IsSound (imported lib id h)
  unfolding check_imported check_host_values imported cloned
  imported-IsSound id h i k =
      let (dom, k1) = or_else-none _ _ k in
      let (more, k2) = or_else-none _ _ k1 in
      let (block, k3) = or_else-none _ _ k2 in
      let (ups, k4) = or_else-none _ _ k3 in
      let (ranges, k5) = or_else-none _ _ k4 in
      let (dirs, k6) = or_else-none _ _ k5 in
      let (vals, k7) = or_else-none _ _ k6 in
      let (heads, routes) = or_else-none _ _ k7 in
      let v = domain_error-IsDomain h.domain dom in
      let domains : AreDomains
          (map (λ (d : HostDomain). record d { id = 0; host_id = id }) h.domains) =
        first_error-All (λ (d : HostDomain). IsDomain d.domain) _ _
          (λ d p. domain_error-IsDomain d.domain p) h.domains more in
      let (redirect, (root, (pages, (php, (index, (origins, (methods, (headers, done)))))))) =
        check_host_values-plain h vals in
      (
        record {
          domain = v;
          others = domains-plain _ domains;
          cert = i.cert;
          key = i.key;
          redirect = redirect;
          root = root;
          index = index;
          fastcgi = php;
          error_pages = pages;
          origins = origins;
          methods = methods;
          headers = headers;
          addresses = with_ids-plain lib 0 _ (
              first_error-All (λ (u : Upstream). is_plain u.address ≡ true) (import_upstream id) _
                (λ u p.
                  validate_upstream-plain lib.split_host_port u.address (upstream_error-none _ p))
                h.upstreams ups);
          paths =
              first_error-All (λ (r : Route). is_plain r.path ≡ true) _ _
                (λ r p.
                  string_or_default-plain r.path (codes "/")
                    (check_value-plain (codes "route path") r.path p) refl)
                h.routes routes;
          custom =
              first_error-All
                (λ (c : CustomHeader). (is_plain c.name ≡ true) × (is_plain c.value ≡ true))
                (import_header id) _
                (λ c p.
                  let (a, b) = or_else-none _ _ p in
                  (
                    check_value-plain (codes "header name") c.name a,
                    check_value-plain (codes "header value") c.value b,
                  ))
                h.custom_headers heads;
          ranges =
              first_error-All (λ (r : AccessRule). is_plain r.ip_range ≡ true)
                (λ (a : AccessRule). record a { id = 0; host_id = id }) _
                (λ r p.
                  validate_ip_range-plain lib.parse_cidr lib.parse_ip r.ip_range
                    (range_error-none _ p))
                h.access_rules ranges;
          auths = auths-plain id h.basic_auths i.auths;
          directives = directive_error-none _ dirs;
          full =
              rw (← effective-trim_space (trim_space h.full_caddy_block))
                (full_block-Balanced lib.wide _ h.full_caddy_block (block_error-none _ block));
        },
        record { primary = v; more = domains },
      )

  import_hosts-IsSound :
      (done hs : List Host)
      → All IsSound done
      → All IsImportable hs
      → first_error (check_imported lib) hs ≡ none
      → All IsSound (import_hosts lib done hs)
  unfolding import_hosts first_error
  import_hosts-IsSound done [] a i k = a
  import_hosts-IsSound done (h ∷ hs) a (i, rest) k =
      let (here, later) = or_else-none _ _ k in
      import_hosts-IsSound (done ++ imported lib (lib.new_host_id done) h ∷ []) hs
        (join-IsSound done _ a ((imported-IsSound _ h i here, tt))) rest later

  pub import_all-IsSound :
      (data_hosts hosts : List Host)
      → All IsImportable data_hosts
      → All IsSound hosts
      → All IsSound (import_all lib data_hosts hosts).0
  unfolding import_all
  import_all-IsSound data_hosts hosts i a = go (first_error (check_imported lib) data_hosts) refl
    where
      go :
          (e : Option HostError)
          → first_error (check_imported lib) data_hosts ≡ e
          → All IsSound (import_checked lib data_hosts hosts e).0
      go (some e) k = a
      go none k = import_hosts-IsSound [] data_hosts tt i k
