-- ===== src/Host/Claim/Free.antt =====
-- After a claim no other host has the domain.
use pdai_server_panel.Common.{
  ℕ, true, false, not, Option, none, List, [], ◌∷◌, ◌++◌, ◌≡◌, refl, sym, ap, ◌∙◌, arith, inl, inr,
  any, All, All-In, In-All, In, Bool-cases,
}
use pdai_server_panel.Text.{Text, text_eq}
use pdai_server_panel.Model.{Host, HostDomain}
use pdai_server_panel.Caddy.Domain.Accepted.{IsDomain}
use pdai_server_panel.Host.Claim.{
  sql_lower, is_in, is_self, key, equal_fold, is_selected, without_name, has_domain, taken,
  check_domain_conflicts, loses_primary, owns, promote, claim_host, claim_hosts,
  claim_requested_domains,
}
use pdai_server_panel.Host.Claim.Names.{key-IsDomain, lower-IsDomain}
use pdai_server_panel.Host.Claim.Lacks.{
  IsStored, IsClaim, text_eq-is_in, without-any, keep-All, keys-IsClaim, Lack, not_selected-Lack,
  any-is_in,
}

module _ (wide fold : ℕ → ℕ) (order : List HostDomain → List HostDomain) where
  primary-Lack :
      (t : Text) (lower : List Text) (d : Text)
      → In t lower
      → All IsClaim lower
      → IsDomain d
      → any (λ u. equal_fold fold d u) lower ≡ false
      → text_eq (sql_lower d) t ≡ false
  primary-Lack t (u ∷ lower) d (inl e) ((v, low), cs) s k =
      let here : equal_fold fold d u ≡ text_eq (sql_lower d) u =
        rw (lower-IsDomain fold s, lower-IsDomain fold v, low) refl in
      rw (← e) (sym here ∙ ground (arith, k))
  primary-Lack t (u ∷ lower) d (inr i) (c, cs) s k =
      primary-Lack t lower d i cs s (ground (arith, k))
  primary-Lack t [] d i c s k = elim i [ ]

  rows-Lack :
      (t : Text) (ds : List HostDomain)
      → All (λ (d : HostDomain). IsDomain d.domain) ds
      → All (λ (d : HostDomain). text_eq (key wide d.domain) t ≡ false) ds
      → any (λ (d : HostDomain). text_eq (sql_lower d.domain) t) ds ≡ false
  rows-Lack t [] s a = refl
  rows-Lack t (d ∷ ds) (s, ss) (a, rest) =
      rw (ap (λ x. text_eq x t) (sym (key-IsDomain wide s)) ∙ a) (rows-Lack t ds ss rest)

  not_owned-Lack :
      (t : Text) (lower : List Text) (h : Host)
      → In t lower
      → All IsClaim lower
      → IsStored h
      → owns wide fold order lower h ≡ false
      → has_domain t h ≡ false
  not_owned-Lack t lower h i c s k =
      rw (primary-Lack t lower h.domain i c s.primary (ground (arith, k))) (
        rows-Lack t h.domains s.more (any-is_in (key wide) t lower h.domains i (ground (arith, k))))

  module _ (keeps : (ds : List HostDomain) (d : HostDomain) → In d (order ds) → In d ds) where
    promote-Lack :
        (t : Text) (lower : List Text) (h : Host) (ds : List HostDomain)
        → In t lower
        → All
            (λ (d : HostDomain). IsDomain d.domain × (not (is_in (key wide d.domain) lower) ≡ true))
            ds
        → Lack t (promote wide fold order lower h ds)
    unfolding promote
    promote-Lack t lower h [] i a = tt
    promote-Lack t lower h (np ∷ rest) i ((s, k), a) =
        let e : is_in (sql_lower np.domain) lower ≡ false =
          ap (λ x. is_in x lower) (sym (key-IsDomain wide s)) ∙ ground (arith, k) in
        (
          rw (text_eq-is_in (sql_lower np.domain) t lower i e)
              (without-any t lower (without_name (key wide np.domain) h.domains) i),
          tt,
        )

    claim_host-Lack :
        (t : Text) (lower : List Text) (h : Host)
        → In t lower
        → All IsClaim lower
        → IsStored h
        → Lack t (claim_host wide fold order lower h)
    unfolding claim_host
    claim_host-Lack t lower h i c s = elim (Bool-cases (loses_primary wide fold order lower h)) [
      | inl e ↦ rw e (
          promote-Lack t lower h _ i (
            keep-All _ _ _ (
              In-All _ (order h.domains)
                (λ d k. All-In _ h.domains d s.more (keeps h.domains d k)))))
      | inr e ↦ rw e (
          (
            rw (primary-Lack t lower h.domain i c s.primary e) (without-any t lower h.domains i),
            tt,
          ))
    ]

    Lack-taken :
        (self : Option ℕ) (t : Text) (hs rest : List Host)
        → Lack t hs
        → taken self t rest ≡ false
        → taken self t (hs ++ rest) ≡ false
    unfolding taken
    Lack-taken self t [] rest a k = k
    Lack-taken self t (h ∷ hs) rest (a, b) k = ground (arith, Lack-taken self t hs rest b k)

    claim_hosts-taken :
        (self : Option ℕ) (t : Text) (lower : List Text) (hs : List Host)
        → In t lower
        → All IsClaim lower
        → All IsStored hs
        → taken self t (claim_hosts wide fold order self lower hs) ≡ false
    unfolding claim_hosts taken
    claim_hosts-taken self t lower [] i c s = refl
    claim_hosts-taken self t lower (h ∷ hs) i c (s, ss) =
        let rest = claim_hosts-taken self t lower hs i c ss in
        elim (Bool-cases (is_self self h)) [
          | inl e ↦ rw (e, e) rest
          | inr e ↦ elim (Bool-cases (is_selected lower h)) [
            | inr f ↦ rw (e, f) (rw (e, not_selected-Lack t lower h i f) rest)
            | inl f ↦ elim (Bool-cases (owns wide fold order lower h)) [
              | inr g ↦ rw (e, f, g) (rw (e, not_owned-Lack t lower h i c s g) rest)
              | inl g ↦ rw (e, f, g) (Lack-taken self t _ _ (claim_host-Lack t lower h i c s) rest)
            ]
          ]
        ]

    no_conflict :
        (self : Option ℕ) (ds : List Text) (hs : List Host)
        → All IsClaim ds
        → ((t : Text) → In t ds → taken self t hs ≡ false)
        → check_domain_conflicts wide self ds hs ≡ none
    unfolding check_domain_conflicts
    no_conflict self [] hs c k = refl
    no_conflict self (d ∷ ds) hs ((v, low), cs) k =
        rw
          (
            lower-IsDomain wide v,
            low,
            k d (inl refl),
            no_conflict self ds hs cs (λ t i. k t (inr i)),
          )
          refl

    -- For an order of rows that puts none into a list: valid lower-case domains are claimed from
    -- hosts whose domains are valid, and the check for conflicts that follows finds none.
    pub claim_requested_domains-check :
        (self : Option ℕ) (domains : List Text) (hosts : List Host)
        → All IsClaim domains
        → All IsStored hosts
        → check_domain_conflicts wide self domains
            (claim_requested_domains wide fold order self domains hosts)
          ≡ none
    unfolding claim_requested_domains check_domain_conflicts
    claim_requested_domains-check self [] hosts c s = refl
    claim_requested_domains-check self (d ∷ ds) hosts c s =
        rw (keys-IsClaim wide (d ∷ ds) c)
          (no_conflict self (d ∷ ds) _ c (λ t i. claim_hosts-taken self t (d ∷ ds) hosts i c s))

    pub claim_requested_domains-taken :
        (self : Option ℕ) (domains : List Text) (hosts : List Host)
        → All IsClaim domains
        → All IsStored hosts
        → (t : Text) → In t domains
        → taken self t (claim_requested_domains wide fold order self domains hosts) ≡ false
    unfolding claim_requested_domains
    claim_requested_domains-taken self [] hosts c s t i = elim i [ ]
    claim_requested_domains-taken self (d ∷ ds) hosts c s t i =
        rw (keys-IsClaim wide (d ∷ ds) c) (claim_hosts-taken self t (d ∷ ds) hosts i c s)
