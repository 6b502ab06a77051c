-- ===== src/Host/Request/Valid.antt =====
-- The domains of a request that are accepted.
use pdai_server_panel.Common.{
  ℕ, false, List, [], ◌∷◌, ◌≡◌, refl, inl, inr, All, any, null, Bool-cases, Option-cases, Result,
  ok, err,
}
use pdai_server_panel.Text.{Text, text_eq}
use pdai_server_panel.Caddy.Domain.{DomainError, validate_domain}
use pdai_server_panel.Caddy.Domain.Accepted.{IsDomain, validate_domain_iff}
use pdai_server_panel.Host.Request.{
  domain_key, consed, normalize_extras, normalize_host_domains, HostCreateRequest,
  host_domains_from_request,
}

-- What holds of all the domains, when there are any.
abbrev pub AllOk : {A : Type 0} → (A → Type 0) → Result DomainError (List A) → Type 0
AllOk P (ok ds) = All P ds
AllOk P (err e) = Unit

module _ (wide : ℕ → ℕ) (P : Text → Type 0)
    (holds : (d : Text) → IsDomain (domain_key wide d) → P (domain_key wide d)) where
  consed-AllOk :
      (d : Text) (r : Result DomainError (List Text)) → P d → AllOk P r → AllOk P (consed d r)
  consed-AllOk d (ok ds) v h = (v, h)
  consed-AllOk d (err e) v h = tt

  normalize_extras-AllOk : (seen extras : List Text) → AllOk P (normalize_extras wide seen extras)
  unfolding normalize_extras
  normalize_extras-AllOk seen [] = tt
  normalize_extras-AllOk seen (extra ∷ extras) =
      let rest = normalize_extras-AllOk seen extras in
      let d = domain_key wide extra in
      elim (Bool-cases (null d)) [
        | inl e ↦ rw (AllOk, e) rest
        | inr e ↦ elim (Option-cases (validate_domain d)) [
          | inr (x, f) ↦ rw (AllOk, e, f) tt
          | inl f ↦ elim (Bool-cases (any (λ k. text_eq k d) seen)) [
            | inl g ↦ rw (AllOk, e, f, g) rest
            | inr g ↦
                rw (AllOk, e, f, g)
                  (consed-AllOk d _ (holds extra ((validate_domain_iff d).0 f))
                    (normalize_extras-AllOk (d ∷ seen) extras))
          ]
        ]
      ]

  pub host_domains_from_request-AllOk :
      (req : HostCreateRequest) → AllOk P (host_domains_from_request wide req)
  unfolding host_domains_from_request normalize_host_domains
  host_domains_from_request-AllOk req =
      let d = domain_key wide req.domain in
      elim (Option-cases (validate_domain d)) [
        | inr (x, f) ↦ rw (AllOk, f) tt
        | inl f ↦
            rw (AllOk, f)
              (consed-AllOk d _ (holds req.domain ((validate_domain_iff d).0 f))
                (normalize_extras-AllOk (d ∷ []) req.domains))
      ]

-- There is a first one.
abbrev pub Filled : Result DomainError (List Text) → Type 0
Filled (ok ds) = null ds ≡ false
Filled (err e) = Unit

consed-Filled : (d : Text) (r : Result DomainError (List Text)) → Filled (consed d r)
consed-Filled d (ok ds) = refl
consed-Filled d (err e) = tt

pub host_domains_from_request-Filled :
    (wide : ℕ → ℕ) (req : HostCreateRequest) → Filled (host_domains_from_request wide req)
unfolding host_domains_from_request normalize_host_domains
host_domains_from_request-Filled wide req =
    let d = domain_key wide req.domain in
    elim (Option-cases (validate_domain d)) [
      | inr (x, f) ↦ rw (Filled, f) tt
      | inl f ↦ rw (Filled, f) (consed-Filled d _)
    ]
