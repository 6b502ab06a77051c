-- ===== src/Caddy/SiteBlock/Addresses.antt =====
-- The site addresses of a block, and the host's domains.
use pdai_server_panel.Common.{
  ℕ, Bool, true, false, Option, none, some, List, [], ◌∷◌, null, All, Any, ◌≡◌, ◌⊎◌, inl, inr, refl,
  sym, ap, ◌∙◌, arith, ok, err, Bool-cases, Result-cases, ==_iff,
}
use pdai_server_panel.Text.{Text, text_eq, trim_space, to_lower}
use pdai_server_panel.Caddy.Domain.{Normalized, rejected, accepted, normalize_domain_address}
use pdai_server_panel.Caddy.SiteBlock.{
  BlockError, Allowed, allow, allow_domain, allow_domains, member, check_normalized, check_address,
  check_addresses,
}

text_eq-eq : (s t : Text) → text_eq s t ≡ true → s ≡ t
unfolding text_eq
text_eq-eq [] [] h = refl
text_eq-eq [] (d ∷ t) h = cc
text_eq-eq (c ∷ s) [] h = cc
text_eq-eq (c ∷ s) (d ∷ t) h =
    let p : c ≡ d = (==_iff c d).0 (ground arith) in
    let q : s ≡ t = text_eq-eq s t (ground arith) in cc

module _ (wide : ℕ → ℕ) where
  -- What a domain of the host, or an address of the block, stands for.
  abbrev pub address_of : Text → Normalized
  address_of d = normalize_domain_address wide (to_lower wide (trim_space d))

  abbrev pub HasExact : Text → Text → Type 0
  HasExact t d = (h : Text) × (q : Bool) × (address_of d ≡ accepted t h q)

  abbrev pub HasHost : Text → Text → Type 0
  HasHost t d = (e : Text) × (address_of d ≡ accepted e t false)

  allow-exact :
      (a b : Allowed) (n : Normalized) (t : Text)
      → allow a n ≡ ok b
      → member t b.exacts ≡ true
      → (member t a.exacts ≡ true) ⊎ ((h : Text) × (q : Bool) × (n ≡ accepted t h q))
  unfolding allow
  allow-exact a b (rejected e) t h m = cc
  allow-exact a b (accepted exact host q) t h m = elim (Bool-cases (text_eq exact t)) [
    | inl e ↦ inr (host, q, ap (λ x. accepted x host q) (text_eq-eq exact t e))
    | inr e ↦ inl (ground arith)
  ]

  allow-host :
      (a b : Allowed) (n : Normalized) (t : Text)
      → allow a n ≡ ok b
      → member t b.hosts ≡ true
      → (member t a.hosts ≡ true) ⊎ ((e : Text) × (n ≡ accepted e t false))
  unfolding allow
  allow-host a b (rejected e) t h m = cc
  allow-host a b (accepted exact host true) t h m = inl (ground arith)
  allow-host a b (accepted exact host false) t h m = elim (Bool-cases (text_eq host t)) [
    | inl e ↦ inr (exact, ap (λ x. accepted exact x false) (text_eq-eq host t e))
    | inr e ↦ inl (ground arith)
  ]

  allow_domain-exact :
      (a b : Allowed) (d t : Text)
      → allow_domain wide a d ≡ ok b
      → member t b.exacts ≡ true
      → (member t a.exacts ≡ true) ⊎ HasExact t d
  unfolding allow_domain
  allow_domain-exact a b d t h m = elim (Bool-cases (null (to_lower wide (trim_space d)))) [
    | inl e ↦ inl (ground arith)
    | inr e ↦ allow-exact a b (address_of d) t (ground arith) m
  ]

  allow_domain-host :
      (a b : Allowed) (d t : Text)
      → allow_domain wide a d ≡ ok b
      → member t b.hosts ≡ true
      → (member t a.hosts ≡ true) ⊎ HasHost t d
  unfolding allow_domain
  allow_domain-host a b d t h m = elim (Bool-cases (null (to_lower wide (trim_space d)))) [
    | inl e ↦ inl (ground arith)
    | inr e ↦ allow-host a b (address_of d) t (ground arith) m
  ]

  module _ (a : Allowed) (d : Text) (ds : List Text) where
    domains-ok :
        (b : Allowed)
        → allow_domain wide a d ≡ ok b
        → allow_domains wide a (d ∷ ds) ≡ allow_domains wide b ds
    unfolding allow_domains
    domains-ok b h = rw (h, allow_domains) refl

    domains-err :
        (e : BlockError) → allow_domain wide a d ≡ err e → allow_domains wide a (d ∷ ds) ≡ err e
    unfolding allow_domains
    domains-err e h = rw (h, allow_domains) refl

  pub allow_domains-exact :
      (a b : Allowed) (ds : List Text) (t : Text)
      → allow_domains wide a ds ≡ ok b
      → member t b.exacts ≡ true
      → (member t a.exacts ≡ true) ⊎ Any (HasExact t) ds
  unfolding allow_domains
  allow_domains-exact a b [] t h m = inl (ground arith)
  allow_domains-exact a b (d ∷ ds) t h m = elim (Result-cases (allow_domain wide a d)) [
    | inr (x, e) ↦ cc (domains-err a d ds x e)
    | inl (c, e) ↦ elim (allow_domains-exact c b ds t (sym (domains-ok a d ds c e) ∙ h) m) [
      | inr later ↦ inr (inr later)
      | inl early ↦ elim (allow_domain-exact a c d t e early) [
        | inl old ↦ inl old
        | inr new ↦ inr (inl new)
      ]
    ]
  ]

  pub allow_domains-host :
      (a b : Allowed) (ds : List Text) (t : Text)
      → allow_domains wide a ds ≡ ok b
      → member t b.hosts ≡ true
      → (member t a.hosts ≡ true) ⊎ Any (HasHost t) ds
  unfolding allow_domains
  allow_domains-host a b [] t h m = inl (ground arith)
  allow_domains-host a b (d ∷ ds) t h m = elim (Result-cases (allow_domain wide a d)) [
    | inr (x, e) ↦ cc (domains-err a d ds x e)
    | inl (c, e) ↦ elim (allow_domains-host c b ds t (sym (domains-ok a d ds c e) ∙ h) m) [
      | inr later ↦ inr (inr later)
      | inl early ↦ elim (allow_domain-host a c d t e early) [
        | inl old ↦ inl old
        | inr new ↦ inr (inl new)
      ]
    ]
  ]

  -- An address that the check lets through: it is one of the exact addresses, or it has a port and
  -- its host is one of those without.
  abbrev pub Passes : Allowed → Text → Type 0
  Passes a t =
      (exact : Text) × (host : Text) × (p : Bool) × (normalize_domain_address wide (trim_space t)
        ≡ accepted exact host p)
      × ((member exact a.exacts ≡ true) ⊎ ((p ≡ true) × (member host a.hosts ≡ true)))

  check_address-Passes : (a : Allowed) (t : Text) → check_address wide a t ≡ none → Passes a t
  unfolding check_address check_normalized
  check_address-Passes a t h = go (normalize_domain_address wide (trim_space t)) refl
    where
      go : (n : Normalized) → normalize_domain_address wide (trim_space t) ≡ n → Passes a t
      go (rejected e) k = absurd (ground arith)
      go (accepted exact host p) k = (exact, host, p, k, ground arith)

  pub check_addresses-Passes :
      (a : Allowed) (ts : List Text) → check_addresses wide a ts ≡ none → All (Passes a) ts
  unfolding check_addresses
  check_addresses-Passes a [] h = tt
  check_addresses-Passes a (t ∷ ts) h =
      go (check_addresses-Passes a ts) (check_address wide a t) refl h
    where
      go :
          (check_addresses wide a ts ≡ none → All (Passes a) ts)
          → (o : Option BlockError) → check_address wide a t ≡ o
          → elim o [ none ↦ check_addresses wide a ts | some e ↦ some e ] ≡ none
          → All (Passes a) (t ∷ ts)
      go ih none e k = (check_address-Passes a t e, ih k)
      go ih (some x) e k = cc
