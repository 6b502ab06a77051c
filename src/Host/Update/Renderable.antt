-- ===== src/Host/Update/Renderable.antt =====
-- The hosts after an update, whatever it answers.
use pdai_server_panel.Common.{
  ℕ, true, ◌==◌, Option, none, some, List, [], ◌∷◌, ◌≡◌, refl, arith, inl, inr, All, In, Bool-cases,
  Result, ok, err,
}
use pdai_server_panel.Text.{Text}
use pdai_server_panel.Model.{Host, HostDomain, BasicAuth}
use pdai_server_panel.Caddy.Domain.{DomainError}
use pdai_server_panel.Caddy.Domain.Accepted.{IsDomain}
use pdai_server_panel.Caddy.Render.Lines.{is_plain}
use pdai_server_panel.Host.Request.{HostCreateRequest, host_domains_from_request}
use pdai_server_panel.Host.Request.Valid.{AllOk, host_domains_from_request-AllOk}
use pdai_server_panel.Host.Claim.{claim_requested_domains, check_domain_conflicts}
use pdai_server_panel.Host.Claim.Kept.{IsSound, claim_requested_domains-IsSound}
use pdai_server_panel.Host.Checks.{Library, HostError, check_request}
use pdai_server_panel.Host.Rows.{hashed, cleared}
use pdai_server_panel.Host.Update.{
  find_host, replace, write_hashed, write_checked, update_found, write, claim_and_write, update,
}
use pdai_server_panel.Host.Update.Inputs.{remap_route-plain, PlainHashed, hashed-plain}
use pdai_server_panel.Host.Update.Written.{written-IsSound, cleared-IsSound}

-- What holds of the host that is found, when one is.
abbrev pub Found : (Host → Type 0) → ℕ → Option Host → Type 0
Found P id none = Unit
Found P id (some h) = P h × (h.id ≡ id)

pub find_host-Found :
    (P : Host → Type 0) (id : ℕ) (hosts : List Host) → All P hosts → Found P id (find_host id hosts)
unfolding find_host
find_host-Found P id [] a = tt
find_host-Found P id (h ∷ hs) (a, rest) = elim (Bool-cases (h.id == id)) [
  | inl e ↦ rw e ((a, ground (arith, e)))
  | inr e ↦ rw e (find_host-Found P id hs rest)
]

pub replace-IsSound :
    (new : Host) (hosts : List Host)
    → IsSound new
    → All IsSound hosts
    → All IsSound (replace new hosts)
unfolding replace
replace-IsSound new [] n a = tt
replace-IsSound new (h ∷ hs) n (a, rest) = elim (Bool-cases (h.id == new.id)) [
  | inl e ↦ rw e ((n, replace-IsSound new hs n rest))
  | inr e ↦ rw e ((a, replace-IsSound new hs n rest))
]

module _ (lib : Library) where
  module _ (plain_hash : (p h : Text) → lib.hash_password p ≡ some h → is_plain h ≡ true)
      (keeps : (ds : List HostDomain) (d : HostDomain)
        → In d (lib.order_domains ds)
        → In d ds) where
    write-IsSound :
        (domains : List Text) (req : HostCreateRequest) (host : Host) (hosts : List Host)
        → IsSound host
        → All IsDomain domains
        → check_request lib domains req host ≡ none
        → All IsSound hosts
        → All IsSound (write lib domains req host hosts).0
    unfolding write
    write-IsSound domains req host hosts s v h a =
        go (hashed lib host.id req.basic_auths)
          (hashed-plain lib host.id plain_hash req.basic_auths)
      where
        go :
            (r : Result HostError (List BasicAuth))
            → PlainHashed r
            → All IsSound (write_hashed lib domains req host hosts r).0
        go (err e) p = replace-IsSound (cleared host) hosts (cleared-IsSound lib host s) a
        go (ok auths) p =
            replace-IsSound _ hosts
              (written-IsSound lib domains req host auths _ s v h p
                (remap_route-plain _ _ host.routes s.0.paths))
              a

    claim_and_write-IsSound :
        (domains : List Text) (req : HostCreateRequest) (host : Host) (hosts : List Host)
        → IsSound host
        → All IsDomain domains
        → All IsSound hosts
        → All IsSound (claim_and_write lib domains req host hosts).0
    unfolding claim_and_write
    claim_and_write-IsSound domains req host hosts s v a =
        go (check_domain_conflicts lib.wide (some host.id) domains claimed)
          (check_request lib domains req host) refl
      where
        claimed : List Host
        claimed =
            claim_requested_domains lib.wide lib.fold lib.order_domains (some host.id) domains hosts

        b : All IsSound claimed
        b =
            claim_requested_domains-IsSound lib.wide lib.fold lib.order_domains keeps (some host.id)
              domains hosts a

        go :
            (c : Option Text) (e : Option HostError)
            → check_request lib domains req host ≡ e
            → All IsSound (write_checked lib domains req host claimed c e).0
        go (some d) e k = b
        go none (some e) k = b
        go none none k = write-IsSound domains req host claimed s v k b

    -- For hashes without braces and newlines, and an order of rows that puts none into a list:
    -- when all hosts can be rendered and have valid domains, so can and have all hosts after an
    -- update of one of them, whatever the request holds and whatever the update answers.
    pub update-IsSound :
        (id : ℕ) (req : HostCreateRequest) (hosts : List Host)
        → All IsSound hosts
        → All IsSound (update lib id req hosts).0
    unfolding update
    update-IsSound id req hosts a =
        go (find_host id hosts) (find_host-Found IsSound id hosts a)
          (host_domains_from_request lib.wide req)
          (host_domains_from_request-AllOk lib.wide IsDomain (λ d v. v) req)
      where
        go :
            (o : Option Host)
            → Found IsSound id o
            → (r : Result DomainError (List Text)) → AllOk IsDomain r
            → All IsSound (update_found lib req hosts o r).0
        go none f r v = a
        go (some host) f (err e) v = a
        go (some host) (f, i) (ok domains) v = claim_and_write-IsSound domains req host hosts f v a
