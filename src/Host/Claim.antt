-- ===== src/Host/Claim.antt =====
-- internal/service/host.go, `claimRequestedDomains` and `checkDomainConflicts`: a domain that is
-- asked for is taken from the host that has it. `wide` is strings.ToLower beyond ASCII, `fold` the
-- case folding of strings.EqualFold, and `order` the ORDER BY sort_order of SQL; LOWER of SQLite
-- changes ASCII letters only. The statements of the database succeed.
pub mod Names
pub mod Lacks
pub mod Free
pub mod Kept
use pdai_server_panel.Common.{
  ℕ, Bool, true, false, ◌||◌, ◌&&◌, not, Option, none, some, List, [], ◌∷◌, ◌++◌, ◌==◌,
  if◌then◌else◌, null, any,
}
use pdai_server_panel.Text.{Text, text_eq, to_lower, trim_space}
use pdai_server_panel.Model.{Host, HostDomain}

abbrev pub sql_lower : Text → Text
sql_lower t = to_lower (λ c. c) t

abbrev pub is_in : Text → List Text → Bool
is_in t set = any (λ u. text_eq u t) set

-- `h.ID == *hostID`
abbrev pub is_self : Option ℕ → Host → Bool
is_self none h = false
is_self (some id) h = h.id == id

-- The rows that a condition keeps.
unfoldable pub keep : (HostDomain → Bool) → List HostDomain → List HostDomain
keep p [] = []
keep p (d ∷ ds) = let rest = keep p ds in if p d then d ∷ rest else rest

abbrev pub key : (ℕ → ℕ) → Text → Text
key wide d = to_lower wide (trim_space d)

abbrev pub equal_fold : (ℕ → ℕ) → Text → Text → Bool
equal_fold fold s t = text_eq (to_lower fold s) (to_lower fold t)

-- `lower`
unfoldable pub keys : (ℕ → ℕ) → List Text → List Text
keys wide [] = []
keys wide (d ∷ ds) =
    let rest = keys wide ds in if null (key wide d) then rest else key wide d ∷ rest

-- What the two queries for the owners select.
abbrev pub is_selected : List Text → Host → Bool
is_selected lower h =
    is_in (sql_lower h.domain) lower
    || any (λ (d : HostDomain). is_in (sql_lower d.domain) lower) h.domains

abbrev pub without : List Text → List HostDomain → List HostDomain
without lower ds = keep (λ d. not (is_in (sql_lower d.domain) lower)) ds

abbrev pub without_name : Text → List HostDomain → List HostDomain
without_name name ds = keep (λ d. not (text_eq (sql_lower d.domain) name)) ds

-- Whether a host has the domain.
abbrev pub has_domain : Text → Host → Bool
has_domain t h =
    text_eq (sql_lower h.domain) t
    || any (λ (d : HostDomain). text_eq (sql_lower d.domain) t) h.domains

unfoldable pub taken : Option ℕ → Text → List Host → Bool
taken self t [] = false
taken self t (h ∷ hs) = (not (is_self self h) && has_domain t h) || taken self t hs

-- The domain that the error names.
unfoldable pub check_domain_conflicts : (ℕ → ℕ) → Option ℕ → List Text → List Host → Option Text
check_domain_conflicts wide self [] hosts = none
check_domain_conflicts wide self (d ∷ ds) hosts =
    let rest = check_domain_conflicts wide self ds hosts in
    if taken self (to_lower wide d) hosts then some d else rest

module _ (wide fold : ℕ → ℕ) (order : List HostDomain → List HostDomain) where
  abbrev pub loses_primary : List Text → Host → Bool
  loses_primary lower h = any (λ d. equal_fold fold h.domain d) lower

  abbrev pub owns : List Text → Host → Bool
  owns lower h =
      loses_primary lower h || any (λ (d : HostDomain). is_in (key wide d.domain) lower) h.domains

  -- The first remaining domain becomes the primary one; without one the host is deleted, and its
  -- rows with it, by the cascade of their foreign keys.
  unfoldable pub promote : List Text → Host → List HostDomain → List Host
  promote lower h [] = []
  promote lower h (np ∷ rest) =
      record h {
        domain = np.domain;
        domains = without lower (without_name (key wide np.domain) h.domains);
      }
      ∷ []

  -- The round of the loop for one owner.
  unfoldable pub claim_host : List Text → Host → List Host
  claim_host lower h =
      let remaining = keep (λ d. not (is_in (key wide d.domain) lower)) (order h.domains) in
      if loses_primary lower h
      then promote lower h remaining
      else record h { domains = without lower h.domains } ∷ []

  unfoldable pub claim_hosts : Option ℕ → List Text → List Host → List Host
  claim_hosts self lower [] = []
  claim_hosts self lower (h ∷ hs) =
      (if is_self self h || not (is_selected lower h) || not (owns lower h)
        then h ∷ []
        else claim_host lower h)
      ++ claim_hosts self lower hs

  unfoldable pub claim_requested_domains : Option ℕ → List Text → List Host → List Host
  claim_requested_domains self domains hosts =
      if null (keys wide domains) then hosts else claim_hosts self (keys wide domains) hosts
