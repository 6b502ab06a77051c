-- ===== src/Caddy/SiteBlock/Accepted.antt =====
-- What a complete site block must be to be accepted.
use pdai_server_panel.Common.{
  ℕ, Bool, true, false, none, List, [], ◌∷◌, ◌==◌, null, All, Any, ◌≡◌, ◌⊎◌, inl, inr, refl, arith,
  Result, ok, err, Option-cases,
}
use pdai_server_panel.Text.{Text, codes, split, trim_space, has_suffix}
use pdai_server_panel.Caddy.Domain.{accepted, normalize_domain_address}
use pdai_server_panel.Caddy.Directives.Balance.{Balanced}
use pdai_server_panel.Caddy.Directives.Sanitized.{effective}
use pdai_server_panel.Caddy.SiteBlock.{
  BlockError, Allowed, allow_domains, addresses_of, validate_lines, validate_block, check_addresses,
  validate_full_caddy_block_for_domains, member,
}
use pdai_server_panel.Caddy.SiteBlock.Braces.{scan_lines-Balanced}
use pdai_server_panel.Caddy.SiteBlock.Addresses.{
  HasExact, HasHost, Passes, check_addresses-Passes, allow_domains-exact, allow_domains-host,
}

module _ (wide : ℕ → ℕ) (domains : List Text) where
  -- A site address of the host: a domain of the host in normal form, or a domain of the host that
  -- has no port, with a port.
  abbrev pub IsOwned : Text → Type 0
  IsOwned t =
      (exact : Text) × (host : Text) × (p : Bool) × (normalize_domain_address wide (trim_space t)
        ≡ accepted exact host p)
      × (Any (HasExact wide exact) domains ⊎ ((p ≡ true) × Any (HasHost wide host) domains))

  -- The first line opens a block for addresses of the host alone, and the braces of all the lines,
  -- comments left out, are balanced.
  pub record IsSiteBlock (first : Text) (lines : List Text) : Type 0 where
    pub opens : has_suffix (trim_space first) (codes "{") ≡ true
    pub owned : All IsOwned (addresses_of (trim_space first))
    pub balanced : Balanced (effective (first ∷ lines))

  abbrev none_yet : Allowed
  none_yet = record { primary = []; exacts = []; hosts = [] }

  Passes-IsOwned :
      (a : Allowed)
      → allow_domains wide none_yet domains ≡ ok a
      → (ts : List Text) → All (Passes wide a) ts
      → All IsOwned ts
  Passes-IsOwned a h [] ps = tt
  Passes-IsOwned a h (t ∷ ts) ((exact, host, p, e, own), ps) =
      ((exact, host, p, e, owner own), Passes-IsOwned a h ts ps)
    where
      known :
          (x : Text)
          → (member x [] ≡ true) ⊎ Any (HasExact wide x) domains
          → Any (HasExact wide x) domains
      known x (inl no_one) = cc
      known x (inr y) = y

      known_host :
          (x : Text)
          → (member x [] ≡ true) ⊎ Any (HasHost wide x) domains
          → Any (HasHost wide x) domains
      known_host x (inl no_one) = cc
      known_host x (inr y) = y

      owner :
          (member exact a.exacts ≡ true) ⊎ ((p ≡ true) × (member host a.hosts ≡ true))
          → Any (HasExact wide exact) domains ⊎ ((p ≡ true) × Any (HasHost wide host) domains)
      owner (inl m) = inl (known exact (allow_domains-exact wide none_yet a domains exact h m))
      owner (inr (q, m)) =
          inr (q, known_host host (allow_domains-host wide none_yet a domains host h m))

  validate_lines-IsSiteBlock :
      (a : Allowed)
      → allow_domains wide none_yet domains ≡ ok a
      → (l : Text) (ls : List Text) → validate_lines wide a (l ∷ ls) ≡ none
      → IsSiteBlock l ls
  unfolding validate_lines
  validate_lines-IsSiteBlock a h l ls v =
      elim (Option-cases (check_addresses wide a (addresses_of (trim_space l)))) [
        | inl e ↦ record {
          opens = ground arith;
          owned =
              Passes-IsOwned a h (addresses_of (trim_space l))
                (check_addresses-Passes wide a (addresses_of (trim_space l)) e);
          balanced = scan_lines-Balanced (l ∷ ls) (ground arith);
        }
        | inr (x, e) ↦ absurd (ground arith)
      ]

  block_lines :
      (a : Allowed) (b : Text)
      → validate_block wide b (ok a) ≡ none
      → validate_lines wide a (split (λ c. c == 10) b) ≡ none
  unfolding validate_block
  block_lines a b h = ground arith

  block_err : (x : BlockError) (b : Text) → validate_block wide b (err x) ≡ none → ⊥
  unfolding validate_block
  block_err x b h = cc

  no_lines : (a : Allowed) → validate_lines wide a [] ≡ none → ⊥
  unfolding validate_lines
  no_lines a h = cc

  checked :
      (text : Text)
      → null (trim_space text) ≡ false
      → validate_full_caddy_block_for_domains wide domains text ≡ none
      → validate_block wide (trim_space text) (allow_domains wide none_yet domains) ≡ none
  unfolding validate_full_caddy_block_for_domains
  checked text filled h = ground arith

  -- An accepted block that is not blank consists of a first line, which opens a block for addresses
  -- of the host's domains alone, and of lines such that all braces are balanced.
  pub validate_full_caddy_block-IsSiteBlock :
      (text : Text)
      → null (trim_space text) ≡ false
      → validate_full_caddy_block_for_domains wide domains text ≡ none
      → (first : Text) × (lines : List Text) × (split (λ c. c == 10) (trim_space text)
          ≡ first ∷ lines)
        × IsSiteBlock first lines
  validate_full_caddy_block-IsSiteBlock text filled h =
      blocks (allow_domains wide none_yet domains) refl (checked text filled h)
        (split (λ c. c == 10) (trim_space text)) refl
    where
      blocks :
          (r : Result BlockError Allowed)
          → allow_domains wide none_yet domains ≡ r
          → validate_block wide (trim_space text) r ≡ none
          → (ls : List Text) → split (λ c. c == 10) (trim_space text) ≡ ls
          → (first : Text) × (lines : List Text) × (split (λ c. c == 10) (trim_space text)
              ≡ first ∷ lines)
            × IsSiteBlock first lines
      blocks (err x) e v ls k = absurd (block_err x (trim_space text) v)
      blocks (ok a) e v [] k = absurd (no_lines a (rw k at (block_lines a (trim_space text) v)))
      blocks (ok a) e v (l ∷ ls) k = (
        l,
        ls,
        k,
        validate_lines-IsSiteBlock a e l ls (rw k at (block_lines a (trim_space text) v)),
      )
