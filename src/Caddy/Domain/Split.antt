-- ===== src/Caddy/Domain/Split.antt =====
-- `splitDomainPort`: what the two parts are.
use pdai_server_panel.Common.{
  true, false, ◌||◌, ◌≡◌, refl, Option, none, some, [], ◌∷◌, ◌++◌, arith, not, all, null,
  if◌then◌else◌, Bool-cases, inl, inr,
}
use pdai_server_panel.Text.{Text, is_digit, cut_last}
use pdai_server_panel.Text.Cuts.{CutLast, Free, cut_last-CutLast, cut_last-append}
use pdai_server_panel.Caddy.Domain.{HostPort, host_port, split_domain_port}

-- What the parts must be: a port is a non-empty run of digits behind a colon, and without a port
-- the whole domain is the host.
abbrev pub IsSplit : Text → HostPort → Type 0
IsSplit d hp =
    if hp.has_port
    then (hp.host ++ b':' ∷ hp.port ≡ d) × (null hp.port ≡ false) × (all is_digit hp.port ≡ true)
    else (hp.host ≡ d) × (hp.port ≡ [])

host_port-IsSplit :
    (d : Text) (o : Option (Text × Text)) → CutLast b':' d o → IsSplit d (host_port d o)
unfolding host_port
host_port-IsSplit d none h = (refl, refl)
host_port-IsSplit d (some (a, b)) h = elim (Bool-cases (null b || not (all is_digit b))) [
  | inl e ↦ rw e (refl, refl)
  | inr e ↦ rw e (h.0, ground arith, ground arith)
]

-- Whatever the domain, either it is the host and there is no port, or it is the host, a colon and
-- the port, which is a non-empty run of digits.
pub split_domain_port-IsSplit : (d : Text) → IsSplit d (split_domain_port d)
unfolding split_domain_port
split_domain_port-IsSplit d = host_port-IsSplit d (cut_last b':' d) (cut_last-CutLast b':' d)

digits-Free : (s : Text) → all is_digit s ≡ true → Free b':' s
digits-Free [] h = refl
digits-Free (c ∷ s) h = ground (arith, digits-Free s)

-- A host, a colon and a non-empty run of digits come apart again.
pub split_domain_port-append :
    (host port : Text)
    → null port ≡ false
    → all is_digit port ≡ true
    → split_domain_port (host ++ b':' ∷ port) ≡ record { host = host; port = port; has_port = true }
unfolding split_domain_port host_port
split_domain_port-append host port h k =
    rw (cut_last-append b':' host port (digits-Free port k)) (rw (h, k))
