-- ===== src/Host/Claim/Kept.antt =====
-- Hosts that can be rendered, and what a claim makes of them.
use pdai_server_panel.Common.{
  ℕ, null, Bool, true, ◌||◌, not, Option, List, [], ◌∷◌, ◌++◌, ◌≡◌, inl, inr, All, All-In, In-All,
  In, Bool-cases,
}
use pdai_server_panel.Text.{Text}
use pdai_server_panel.Model.{Host, HostDomain}
use pdai_server_panel.Caddy.Domain.Accepted.{IsDomain}
use pdai_server_panel.Caddy.Render.Lines.{is_plain}
use pdai_server_panel.Caddy.Render.Sites.{IsRenderable, domain-plain}
use pdai_server_panel.Host.Claim.{
  is_self, keep, is_selected, owns, loses_primary, promote, claim_host, claim_hosts,
  claim_requested_domains, keys,
}
use pdai_server_panel.Host.Claim.Lacks.{IsStored}

-- A host whose block can be rendered, and whose domains are all valid.
abbrev pub IsSound : Host → Type 0
IsSound h = IsRenderable h × IsStored h

abbrev pub AreDomains : List HostDomain → Type 0
AreDomains ds = All (λ (d : HostDomain). IsDomain d.domain) ds

pub domains-plain :
    (ds : List HostDomain) → AreDomains ds → All (λ (d : HostDomain). is_plain d.domain ≡ true) ds
domains-plain [] h = tt
domains-plain (d ∷ ds) (h, hs) = (domain-plain h, domains-plain ds hs)

-- Other valid domains for a host.
renamed-IsSound :
    (h : Host) (d : Text) (ds : List HostDomain)
    → IsSound h
    → IsDomain d
    → AreDomains ds
    → IsSound (record h { domain = d; domains = ds })
renamed-IsSound h d ds (r, s) v vs = (
  record {
    domain = v;
    others = domains-plain ds vs;
    cert = r.cert;
    key = r.key;
    redirect = r.redirect;
    root = r.root;
    index = r.index;
    fastcgi = r.fastcgi;
    error_pages = r.error_pages;
    origins = r.origins;
    methods = r.methods;
    headers = r.headers;
    addresses = r.addresses;
    paths = r.paths;
    custom = r.custom;
    ranges = r.ranges;
    auths = r.auths;
    directives = r.directives;
    full = r.full;
  },
  record { primary = v; more = vs },
)

keep-AreDomains :
    (p : HostDomain → Bool) (ds : List HostDomain) → AreDomains ds → AreDomains (keep p ds)
unfolding keep
keep-AreDomains p [] h = tt
keep-AreDomains p (d ∷ ds) (h, hs) = elim (Bool-cases (p d)) [
  | inl e ↦ rw e (h, keep-AreDomains p ds hs)
  | inr e ↦ rw e (keep-AreDomains p ds hs)
]

pub join-IsSound : (hs ks : List Host) → All IsSound hs → All IsSound ks → All IsSound (hs ++ ks)
join-IsSound [] ks a b = b
join-IsSound (h ∷ hs) ks (a, rest) b = (a, join-IsSound hs ks rest b)

module _ (wide fold : ℕ → ℕ) (order : List HostDomain → List HostDomain)
    (keeps : (ds : List HostDomain) (d : HostDomain) → In d (order ds) → In d ds) where
  promote-IsSound :
      (lower : List Text) (h : Host) (ds : List HostDomain)
      → IsSound h
      → AreDomains ds
      → All IsSound (promote wide fold order lower h ds)
  unfolding promote
  promote-IsSound lower h [] s a = tt
  promote-IsSound lower h (np ∷ rest) s (v, vs) = (
    renamed-IsSound h np.domain _ s v (keep-AreDomains _ _ (keep-AreDomains _ h.domains s.1.more)),
    tt,
  )

  claim_host-IsSound :
      (lower : List Text) (h : Host) → IsSound h → All IsSound (claim_host wide fold order lower h)
  unfolding claim_host
  claim_host-IsSound lower h s = elim (Bool-cases (loses_primary wide fold order lower h)) [
    | inl e ↦ rw e (
        promote-IsSound lower h _ s (
          keep-AreDomains _ (order h.domains) (
            In-All _ (order h.domains)
              (λ d k. All-In _ h.domains d s.1.more (keeps h.domains d k)))))
    | inr e ↦
        rw e
          ((renamed-IsSound h h.domain _ s s.1.primary (keep-AreDomains _ h.domains s.1.more), tt))
  ]

  claim_hosts-IsSound :
      (self : Option ℕ) (lower : List Text) (hs : List Host)
      → All IsSound hs
      → All IsSound (claim_hosts wide fold order self lower hs)
  unfolding claim_hosts
  claim_hosts-IsSound self lower [] a = tt
  claim_hosts-IsSound self lower (h ∷ hs) (s, ss) =
      elim (Bool-cases
        (is_self self h || not (is_selected lower h) || not (owns wide fold order lower h))) [
          | inl e ↦ rw e ((s, claim_hosts-IsSound self lower hs ss))
          | inr e ↦ rw e (
              join-IsSound _ _ (claim_host-IsSound lower h s)
                (claim_hosts-IsSound self lower hs ss))
        ]

  pub claim_requested_domains-IsSound :
      (self : Option ℕ) (domains : List Text) (hosts : List Host)
      → All IsSound hosts
      → All IsSound (claim_requested_domains wide fold order self domains hosts)
  unfolding claim_requested_domains
  claim_requested_domains-IsSound self domains hosts a =
      elim (Bool-cases (null (keys wide domains))) [
        | inl e ↦ rw e a
        | inr e ↦ rw e (claim_hosts-IsSound self (keys wide domains) hosts a)
      ]
