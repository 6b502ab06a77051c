-- ===== src/Host/Claim/Lacks.antt =====
-- Hosts that do not have a domain.
use pdai_server_panel.Common.{
  ℕ, Bool, true, false, List, [], ◌∷◌, ◌≡◌, refl, ap, ◌∙◌, arith, inl, inr, any, null, All, In,
  Bool-cases,
}
use pdai_server_panel.Text.{Text, text_eq}
use pdai_server_panel.Model.{Host, HostDomain}
use pdai_server_panel.Caddy.Domain.Accepted.{IsDomain}
use pdai_server_panel.Caddy.Domain.Pattern.{Matches-IsAddress}
use pdai_server_panel.Host.Claim.{
  sql_lower, is_in, keep, key, keys, is_selected, without, has_domain,
}
use pdai_server_panel.Text.Equal.{text_eq_iff}
use pdai_server_panel.Host.Claim.Names.{key-IsDomain}

-- The domains that a host has in the database are valid.
pub record IsStored (h : Host) : Type 0 where
  pub primary : IsDomain h.domain
  pub more : All (λ (d : HostDomain). IsDomain d.domain) h.domains

-- A domain as a request leaves it: valid, and in lower case.
abbrev pub IsClaim : Text → Type 0
IsClaim d = IsDomain d × (sql_lower d ≡ d)

pub In-is_in : (t : Text) (set : List Text) → In t set → is_in t set ≡ true
In-is_in t (u ∷ set) (inl e) = rw ((text_eq_iff u t).1 e)
In-is_in t (u ∷ set) (inr i) = ground (arith, In-is_in t set i)
In-is_in t [] i = elim i [ ]

pub text_eq-is_in :
    (s t : Text) (set : List Text) → In t set → is_in s set ≡ false → text_eq s t ≡ false
text_eq-is_in s t set i h = elim (Bool-cases (text_eq s t)) [
  | inr e ↦ e
  | inl e ↦ absurd (ground (arith, In-is_in t set i, ap (λ x. is_in x set) ((text_eq_iff s t).0 e)))
]

pub without-any :
    (t : Text) (lower : List Text) (ds : List HostDomain)
    → In t lower
    → any (λ (d : HostDomain). text_eq (sql_lower d.domain) t) (without lower ds) ≡ false
unfolding keep
without-any t lower [] i = refl
without-any t lower (d ∷ ds) i = elim (Bool-cases (is_in (sql_lower d.domain) lower)) [
  | inl e ↦ rw e (without-any t lower ds i)
  | inr e ↦ rw e (rw (text_eq-is_in (sql_lower d.domain) t lower i e) (without-any t lower ds i))
]

pub keep-All :
    (P : HostDomain → Type 0) (p : HostDomain → Bool) (ds : List HostDomain)
    → All P ds
    → All (λ d. P d × (p d ≡ true)) (keep p ds)
unfolding keep
keep-All P p [] h = tt
keep-All P p (d ∷ ds) (h, hs) = elim (Bool-cases (p d)) [
  | inl e ↦ rw e ((h, e), keep-All P p ds hs)
  | inr e ↦ rw e (keep-All P p ds hs)
]

pub keys-IsClaim : (wide : ℕ → ℕ) (ds : List Text) → All IsClaim ds → keys wide ds ≡ ds
unfolding keys
keys-IsClaim wide [] h = refl
keys-IsClaim wide (d ∷ ds) ((v, low), hs) =
    let e : key wide d ≡ d = key-IsDomain wide v ∙ low in
    let a = Matches-IsAddress v.matches in
    let filled : null d ≡ false = rw (← a.parts) refl in rw (e, filled, keys-IsClaim wide ds hs)

-- None of the hosts has the domain.
abbrev pub Lack : Text → List Host → Type 0
Lack t hs = All (λ h. has_domain t h ≡ false) hs

pub not_selected-Lack :
    (t : Text) (lower : List Text) (h : Host)
    → In t lower
    → is_selected lower h ≡ false
    → has_domain t h ≡ false
not_selected-Lack t lower h i s =
    rw (text_eq-is_in (sql_lower h.domain) t lower i (ground (arith, s)))
      (rows h.domains (ground (arith, s)))
  where
    rows :
        (ds : List HostDomain)
        → any (λ (d : HostDomain). is_in (sql_lower d.domain) lower) ds ≡ false
        → any (λ (d : HostDomain). text_eq (sql_lower d.domain) t) ds ≡ false
    rows [] k = refl
    rows (d ∷ ds) k =
        rw (text_eq-is_in (sql_lower d.domain) t lower i (ground (arith, k)))
          (rows ds (ground (arith, k)))

pub any-is_in :
    (f : Text → Text) (t : Text) (lower : List Text) (ds : List HostDomain)
    → In t lower
    → any (λ (d : HostDomain). is_in (f d.domain) lower) ds ≡ false
    → All (λ (d : HostDomain). text_eq (f d.domain) t ≡ false) ds
any-is_in f t lower [] i k = tt
any-is_in f t lower (d ∷ ds) i k = (
  text_eq-is_in (f d.domain) t lower i (ground (arith, k)),
  any-is_in f t lower ds i (ground (arith, k)),
)
