-- ===== src/Host/Create/Outcome.antt =====
-- What a create may answer, and what it then leaves.
use mathlib.Core.List.{map}
use pdai_server_panel.Common.{
  ℕ, suc, false, Option, none, some, List, [], ◌∷◌, ◌++◌, ◌≡◌, if◌then◌else◌, null, refl, ap, arith,
  All, In, Result, ok, err,
}
use pdai_server_panel.Text.{Text, is_upper}
use pdai_server_panel.Model.{Host, HostDomain, BasicAuth}
use pdai_server_panel.Caddy.Domain.{DomainError}
use pdai_server_panel.Host.Request.{
  HostCreateRequest, host_domains_from_request, build_host_domain_rows,
}
use pdai_server_panel.Host.Request.Valid.{
  AllOk, Filled, host_domains_from_request-AllOk, host_domains_from_request-Filled,
}
use pdai_server_panel.Host.Claim.{taken}
use pdai_server_panel.Host.Claim.Lacks.{IsStored, IsClaim}
use pdai_server_panel.Host.Claim.Free.{claim_requested_domains-check, claim_requested_domains-taken}
use pdai_server_panel.Host.Checks.{Library, HostError, invalid_domain, config_failed}
use pdai_server_panel.Host.Rows.{first_or, hashed}
use pdai_server_panel.Host.Update.Claimed.{domain_key-IsClaim}
use pdai_server_panel.Host.Create.{
  apply_default_site_paths, check_create, made, create_hashed, create_checked, create_claimed,
  create, transaction, applied,
}

-- The domains of a host, the primary one first.
abbrev pub all_names : Host → List Text
all_names h = h.domain ∷ map (λ (d : HostDomain). d.domain) h.domains

-- The ways in which a create ends: three refusals that leave the hosts, and a host that is made,
-- whatever the application of the configuration then answers.
pub data Outcome (lib : Library) (req : HostCreateRequest) (hosts : List Host)
    : List Host × Result HostError Host → Type 0 where
  bad_domain :
      (e : DomainError)
      → host_domains_from_request lib.wide req ≡ err e
      → Outcome lib req hosts (hosts, err (invalid_domain e))
  bad_request :
      (domains : List Text) (e : HostError)
      → host_domains_from_request lib.wide req ≡ ok domains
      → check_create lib domains req ≡ some e
      → Outcome lib req hosts (hosts, err e)
  bad_auth :
      (host_id : ℕ) (e : HostError)
      → hashed lib host_id req.basic_auths ≡ err e
      → Outcome lib req hosts (hosts, err e)
  created :
      (domains : List Text) (kept : List Host) (new : Host)
      → host_domains_from_request lib.wide req ≡ ok domains
      → all_names new ≡ domains
      → ((t : Text) → In t domains → taken none t kept ≡ false)
      → Outcome lib req hosts (kept ++ new ∷ [], if lib.apply_ok then ok new else err config_failed)

rows-names :
    (host_id i : ℕ) (ds : List Text)
    → map (λ (d : HostDomain). d.domain) (build_host_domain_rows host_id i ds) ≡ ds
unfolding build_host_domain_rows
rows-names host_id i [] = refl
rows-names host_id i (d ∷ ds) = ap (λ t. d ∷ t) (rows-names host_id (suc i) ds)

module _ (lib : Library) where
  made-names :
      (id : ℕ) (domains : List Text) (req : HostCreateRequest) (auths : List BasicAuth)
      → null domains ≡ false
      → all_names (made lib id domains req auths) ≡ domains
  unfolding made
  made-names id [] req auths n = absurd (ground (arith, n))
  made-names id (d ∷ ds) req auths n = ap (λ t. d ∷ t) (rows-names id 0 ds)

  module _ (lowers : (c : ℕ) → is_upper (lib.wide c) ≡ false)
      (keeps : (ds : List HostDomain) (d : HostDomain) → In d (lib.order_domains ds) → In d ds)
      (req : HostCreateRequest) (hosts : List Host) (stored : All IsStored hosts) where
    hashed-Outcome :
        (domains : List Text) (kept : List Host) (id : ℕ) (r : Result HostError (List BasicAuth))
        → hashed lib id req.basic_auths ≡ r
        → host_domains_from_request lib.wide req ≡ ok domains
        → null domains ≡ false
        → ((t : Text) → In t domains → taken none t kept ≡ false)
        → Outcome lib req hosts
            (applied lib (transaction hosts (create_hashed lib domains req kept r)))
    hashed-Outcome domains kept id (err e) h d n free = bad_auth id e h
    hashed-Outcome domains kept id (ok auths) h d n free =
        created domains kept _ d
          (made-names _ domains (apply_default_site_paths lib (first_or [] domains) req) auths n)
          free

    checked-Outcome :
        (domains : List Text) (kept : List Host) (c : Option Text) (o : Option HostError)
        → c ≡ none
        → check_create lib domains req ≡ o
        → host_domains_from_request lib.wide req ≡ ok domains
        → null domains ≡ false
        → ((t : Text) → In t domains → taken none t kept ≡ false)
        → Outcome lib req hosts
            (applied lib (transaction hosts (create_checked lib domains req kept c o)))
    checked-Outcome domains kept (some t) o h k d n free = absurd (ground (arith, h))
    checked-Outcome domains kept none (some e) h k d n free = bad_request domains e d k
    checked-Outcome domains kept none none h k d n free =
        hashed-Outcome domains kept _ _ refl d n free

    -- When no lower case of a code point is an ASCII capital, all hosts have valid domains and the
    -- order of rows puts none into a list: a create is refused with the hosts as they were, for an
    -- invalid domain, a failed check or a failed basic auth and never for a conflict of domains, or it
    -- adds a host with exactly the requested domains, none of which another host has any more; this
    -- host stays, and the domains with it, also when the configuration then fails.
    pub create-Outcome : Outcome lib req hosts (create lib req hosts)
    unfolding create
    create-Outcome =
        go (host_domains_from_request lib.wide req) refl
          (host_domains_from_request-AllOk lib.wide IsClaim (domain_key-IsClaim lib lowers) req)
          (host_domains_from_request-Filled lib.wide req)
      where
        go :
            (r : Result DomainError (List Text))
            → host_domains_from_request lib.wide req ≡ r
            → AllOk IsClaim r
            → Filled r
            → Outcome lib req hosts
                (applied lib (transaction hosts (create_claimed lib req hosts r)))
        go (err e) d c n = bad_domain e d
        go (ok domains) d c n =
            checked-Outcome domains _ _ _
              (claim_requested_domains-check lib.wide lib.fold lib.order_domains keeps none domains
                hosts c stored)
              refl d n
              (claim_requested_domains-taken lib.wide lib.fold lib.order_domains keeps none domains
                hosts c stored)
