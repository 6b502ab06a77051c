-- ===== src/Host/Update/Claimed.antt =====
-- Who has the domains of a request after it.
use mathlib.Core.Path.{subst}
use pdai_server_panel.Common.{
  ℕ, false, ◌==◌, Option, none, some, List, [], ◌∷◌, ◌≡◌, refl, arith, inl, inr, All, In,
  Bool-cases, Result, ok, err,
}
use pdai_server_panel.Text.{Text, to_lower, trim_space, is_upper}
use pdai_server_panel.Model.{Host, HostDomain, BasicAuth}
use pdai_server_panel.Caddy.Domain.Accepted.{IsDomain}
use pdai_server_panel.Host.Request.{HostCreateRequest, domain_key, host_domains_from_request}
use pdai_server_panel.Host.Request.Valid.{AllOk, host_domains_from_request-AllOk}
use pdai_server_panel.Host.Claim.{sql_lower, taken, claim_requested_domains}
use pdai_server_panel.Host.Claim.Lacks.{IsStored, IsClaim}
use pdai_server_panel.Host.Claim.Free.{claim_requested_domains-taken}
use pdai_server_panel.Host.Checks.{Library, HostError}
use pdai_server_panel.Host.Rows.{updated, hashed}
use pdai_server_panel.Host.Update.{
  find_host, replace, write_hashed, write_checked, write, claim_and_write, update,
}
use pdai_server_panel.Host.Update.Renderable.{Found, find_host-Found}

module _ (lib : Library) (lowers : (c : ℕ) → is_upper (lib.wide c) ≡ false) where
  lower-sql_lower : (s : Text) → sql_lower (to_lower lib.wide s) ≡ to_lower lib.wide s
  unfolding to_lower
  lower-sql_lower [] = refl
  lower-sql_lower (c ∷ s) = rw (lower-sql_lower s) (ground (arith, lowers c))

  pub domain_key-IsClaim :
      (d : Text) → IsDomain (domain_key lib.wide d) → IsClaim (domain_key lib.wide d)
  domain_key-IsClaim d v = (v, lower-sql_lower (trim_space d))

  taken-replace :
      (id : ℕ) (t : Text) (new : Host) (hosts : List Host)
      → new.id ≡ id
      → taken (some id) t hosts ≡ false
      → taken (some id) t (replace new hosts) ≡ false
  unfolding taken replace
  taken-replace id t new [] e k = refl
  taken-replace id t new (h ∷ hs) e k =
      let rest = taken-replace id t new hs e (ground (arith, k)) in
      elim (Bool-cases (h.id == new.id)) [
        | inl f ↦ rw f (ground (arith, rest, e))
        | inr f ↦ rw f (ground (arith, rest, k))
      ]

  write-taken :
      (id : ℕ) (domains : List Text) (req : HostCreateRequest) (host : Host) (hosts : List Host)
      (t : Text)
      → host.id ≡ id
      → taken (some id) t hosts ≡ false
      → taken (some id) t (write lib domains req host hosts).0 ≡ false
  unfolding write updated
  write-taken id domains req host hosts t e k = go (hashed lib host.id req.basic_auths)
    where
      go :
          (r : Result HostError (List BasicAuth))
          → taken (some id) t (write_hashed lib domains req host hosts r).0 ≡ false
      go (err x) = taken-replace id t _ hosts e k
      go (ok auths) = taken-replace id t _ hosts e k

  module _
      (keeps : (ds : List HostDomain) (d : HostDomain)
        → In d (lib.order_domains ds)
        → In d ds) where
    -- When no lower case of a code point is an ASCII capital, all hosts have valid domains, the
    -- host exists, the domains of the request are accepted, and the order of rows puts none into
    -- a list: after an update, whatever it answers, no other host has one of these domains, also
    -- when the update is refused.
    pub update-taken :
        (id : ℕ) (req : HostCreateRequest) (hosts : List Host) (host : Host) (domains : List Text)
        → All IsStored hosts
        → find_host id hosts ≡ some host
        → host_domains_from_request lib.wide req ≡ ok domains
        → (t : Text) → In t domains
        → taken (some id) t (update lib id req hosts).0 ≡ false
    unfolding update claim_and_write
    update-taken id req hosts host domains s found accepted t i = rw (found, accepted) (go _ _)
      where
        same : host.id ≡ id
        same = (subst (Found IsStored id) found (find_host-Found IsStored id hosts s)).1

        claims : All IsClaim domains
        claims =
            subst (AllOk IsClaim) accepted
              (host_domains_from_request-AllOk lib.wide IsClaim domain_key-IsClaim req)

        claimed : List Host
        claimed =
            claim_requested_domains lib.wide lib.fold lib.order_domains (some host.id) domains hosts

        free : taken (some id) t claimed ≡ false
        free = rw (← same) (
            claim_requested_domains-taken lib.wide lib.fold lib.order_domains keeps (some host.id)
              domains hosts claims s t i)

        go :
            (c : Option Text) (e : Option HostError)
            → taken (some id) t (write_checked lib domains req host claimed c e).0 ≡ false
        go (some d) e = free
        go none (some e) = free
        go none none = write-taken id domains req host claimed t same free
