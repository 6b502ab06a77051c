-- ===== src/Caddy/Render/Sites.antt =====
-- What a host must be to be rendered, and the names in front of its block.
use mathlib.Core.List.{map}
use pdai_server_panel.Common.{
  ℕ, Bool, true, false, ◌||◌, Option, none, List, [], ◌∷◌, ◌++◌, ◌==◌, ◌≡◌, inl, inr, refl, sym, ap,
  arith, Bool-cases, if◌then◌else◌, null, ℤ, All, any, all,
}
use pdai_server_panel.Text.{
  Text, codes, text_eq, split, onto_first, to_lower, trim_left, trim_space, trim_right, is_space,
  has_prefix,
}
use pdai_server_panel.Text.Trims.{all-trim_right}
use pdai_server_panel.Model.{
  Host, HostDomain, Upstream, Route, CustomHeader, AccessRule, BasicAuth, DnsProvider,
}
use pdai_server_panel.Caddy.Domain.Pattern.{IsAddress, Matches-IsAddress, is_tail_char}
use pdai_server_panel.Caddy.Domain.Accepted.{IsDomain}
use pdai_server_panel.Caddy.FileName.{is_safe_char}
use pdai_server_panel.Caddy.Directives.{
  brace_depth, brace_step, line_text, sanitize_custom_directives,
}
use pdai_server_panel.Caddy.Directives.Balance.{Balanced, Balanced-brace_depth}
use pdai_server_panel.Caddy.Directives.Sanitized.{effective}
use pdai_server_panel.Caddy.Render.Parts.{join, is_false}
use pdai_server_panel.Caddy.Render.{more_domains, host_site_domains, site_mode, site_names}
use pdai_server_panel.Caddy.Render.Lines.{
  is_plain, is_plain_char, one_line, IsBlock, nest-IsBlock, plain-append,
}
use pdai_server_panel.Caddy.Render.Blocks.{plain-both-one_line}
use pdai_server_panel.Caddy.Render.Sorted.{Keeps, sort-All, join-plain}

-- What the validators of a host give for the texts that its block is made of.
pub record IsRenderable (h : Host) : Type 0 where
  pub domain : IsDomain h.domain
  pub others : All (λ (d : HostDomain). is_plain d.domain ≡ true) h.domains
  pub cert : is_plain h.custom_cert_path ≡ true
  pub key : is_plain h.custom_key_path ≡ true
  pub redirect : is_plain h.redirect_url ≡ true
  pub root : is_plain h.root_path ≡ true
  pub index : is_plain h.index_files ≡ true
  pub fastcgi : is_plain h.php_fastcgi ≡ true
  pub error_pages : is_plain h.error_page_path ≡ true
  pub origins : is_plain h.cors_origins ≡ true
  pub methods : is_plain h.cors_methods ≡ true
  pub headers : is_plain h.cors_headers ≡ true
  pub addresses : All (λ (u : Upstream). is_plain u.address ≡ true) h.upstreams
  pub paths : All (λ (r : Route). is_plain r.path ≡ true) h.routes
  pub custom :
      All
        (λ (c : CustomHeader). (is_plain c.name ≡ true) × (is_plain c.value ≡ true))
        h.custom_headers
  pub ranges : All (λ (r : AccessRule). is_plain r.ip_range ≡ true) h.access_rules
  pub auths :
      All
        (λ (a : BasicAuth). (is_plain a.username ≡ true) × (is_plain a.password_hash ≡ true))
        h.basic_auths
  pub directives : sanitize_custom_directives h.custom_directives ≡ none
  pub full : Balanced (effective (split (λ c. c == 10) (trim_space h.full_caddy_block)))

tail-plain : (s : Text) → all is_tail_char s ≡ true → is_plain s ≡ true
tail-plain [] h = refl
tail-plain (c ∷ s) h = ground (arith, tail-plain s)

address-plain : {d : Text} → IsAddress d → is_plain d ≡ true
address-plain a = rw (← a.parts) (rw (tail-plain a.rest a.follows) (ground (arith, a.starts)))

pub domain-plain : {d : Text} → IsDomain d → is_plain d ≡ true
domain-plain v = address-plain (Matches-IsAddress v.matches)

pub safe-plain : (s : Text) → all is_safe_char s ≡ true → is_plain s ≡ true
safe-plain [] h = refl
safe-plain (c ∷ s) h = ground (arith, safe-plain s)

trim_left-plain : (s : Text) → is_plain s ≡ true → is_plain (trim_left is_space s) ≡ true
unfolding trim_left
trim_left-plain [] h = refl
trim_left-plain (c ∷ s) h = ground (arith, trim_left-plain s)

trim_space-plain : (s : Text) → is_plain s ≡ true → is_plain (trim_space s) ≡ true
unfolding trim_space
trim_space-plain s h =
    all-trim_right is_space is_plain_char (trim_left is_space s) (trim_left-plain s h)

pub split-lines : (s : Text) → all one_line (split (λ c. c == 10) s) ≡ true
unfolding split onto_first
split-lines [] = refl
split-lines (c ∷ s) = elim (Bool-cases (c == 10)) [
  | inl e ↦ rw e (split-lines s)
  | inr e ↦ rw e (first (split (λ x. x == 10) s) e (split-lines s))
]
  where
    first :
        (ls : List Text)
        → (c == 10) ≡ false
        → all one_line ls ≡ true
        → all one_line (onto_first c ls) ≡ true
    first [] e k = ground arith
    first (p ∷ ps) e k = ground arith

-- Text whose lines are balanced may stand in a block.
pub Balanced-IsBlock :
    (s : Text) → Balanced (effective (split (λ c. c == 10) s)) → IsBlock (split (λ c. c == 10) s)
Balanced-IsBlock s b = record { level = λ d. Balanced-brace_depth d b; lines = split-lines s }

-- An indent changes nothing.
pub indent-effective :
    (ls : List Text) → effective (map (λ (l : Text). codes "\t" ++ l) ls) ≡ effective ls
unfolding line_text trim_space trim_left is_space
indent-effective [] = refl
indent-effective (l ∷ ls) = ap (λ t. line_text l ++ t) (indent-effective ls)

pub indent-lines :
    (ls : List Text)
    → all one_line ls ≡ true
    → all one_line (map (λ (l : Text). codes "\t" ++ l) ls) ≡ true
indent-lines [] h = refl
indent-lines (l ∷ ls) h = ground (arith, indent-lines ls)

join-first :
    (c : ℕ) (s : Text) (ts : List Text) → (t : Text) × (join (codes " ") ((c ∷ s) ∷ ts) ≡ c ∷ t)
unfolding join
join-first c s [] = (s, refl)
join-first c s (u ∷ us) = (s ++ (codes " " ++ join (codes " ") (u ∷ us)), refl)

http-plain :
    (ts : List Text)
    → All (λ t. is_plain t ≡ true) ts
    → All (λ t. is_plain t ≡ true) (map (λ (d : Text). codes "http://" ++ d) ts)
http-plain [] h = tt
http-plain (t ∷ ts) (h, hs) = (h, http-plain ts hs)

-- A first character that is neither space nor `#`.
abbrev pub Begins : Text → Type 0
Begins t = (c : ℕ) × (s : Text) × (t ≡ c ∷ s) × (is_space c ≡ false) × ((c == b'#') ≡ false)

domain-Begins : {d : Text} → IsAddress d → Begins d
unfolding is_space
domain-Begins a = (a.first, a.rest, sym a.parts, ground (arith, a.starts), ground (arith, a.starts))

join-Begins : (t : Text) (ts : List Text) → Begins t → Begins (join (codes " ") (t ∷ ts))
join-Begins t ts (c, s, e, k, h) = let (u, f) = join-first c s ts in (c, u, rw e f, k, h)

pub open-IsBlock :
    (names : Text) {body : List Text}
    → is_plain names ≡ true
    → Begins names
    → IsBlock body
    → IsBlock (((names ++ codes " {") ∷ []) ++ (body ++ (codes "}" ∷ [])))
unfolding brace_depth brace_step line_text trim_left trim_space trim_right is_space has_prefix
open-IsBlock names p (c, s, e, k, h) b =
    nest-IsBlock c (names ++ codes " {") (s ++ codes " {") (codes "}") (rw e (rw k)) k h
      (λ d. plain-append d names _ p) (plain-both-one_line names _ p refl) (λ d. refl) refl b

module _ (sort : (A : Type 0) → (A → ℤ) → List A → List A) (keeps : Keeps sort) where
  more_domains-plain :
      (wide : ℕ → ℕ) (seen : List Text) (ds : List HostDomain)
      → All (λ (d : HostDomain). is_plain d.domain ≡ true) ds
      → All (λ t. is_plain t ≡ true) (more_domains sort wide seen ds)
  unfolding more_domains
  more_domains-plain wide seen [] h = tt
  more_domains-plain wide seen (d ∷ ds) (h, hs) =
      go
        (null (trim_space d.domain)
          || any (λ k. text_eq k (to_lower wide (trim_space d.domain))) seen)
        (more_domains-plain wide seen ds hs)
        (more_domains-plain wide (to_lower wide (trim_space d.domain) ∷ seen) ds hs)
    where
      go :
          (b : Bool)
          → All (λ t. is_plain t ≡ true) (more_domains sort wide seen ds)
          → All
              (λ t. is_plain t ≡ true)
              (more_domains sort wide (to_lower wide (trim_space d.domain) ∷ seen) ds)
          → All
              (λ t. is_plain t ≡ true)
              (elim b [
                | true ↦ more_domains sort wide seen ds
                | false ↦
                    trim_space d.domain
                    ∷ more_domains sort wide (to_lower wide (trim_space d.domain) ∷ seen) ds
              ])
      go true a b = a
      go false a b = (trim_space-plain d.domain h, b)

  module _ (wide : ℕ → ℕ) (parse_json : Text → Option (Text → Text)) (log_dir : Text)
      (providers : ℕ → Option DnsProvider) where
    abbrev names : Host → List Text
    names h = host_site_domains sort wide h

    site-plain : (h : Host) → IsRenderable h → All (λ t. is_plain t ≡ true) (names h)
    unfolding host_site_domains
    site-plain h r = (
      address-plain (Matches-IsAddress r.domain.matches),
      more_domains-plain wide _ _ (sort-All sort keeps _ _ h.domains r.others),
    )

    -- The names in front of the opening brace.
    pub site_names-open :
        (h : Host)
        → IsRenderable h
        → (is_plain (join (codes " ") (site_names sort wide parse_json log_dir providers h)) ≡ true)
          × Begins (join (codes " ") (site_names sort wide parse_json log_dir providers h))
    unfolding site_names host_site_domains is_space
    site_names-open h r = go (
        text_eq (site_mode sort wide parse_json log_dir providers h) (codes "off")
        || is_false h.tls_enabled)
      where
        go :
            (b : Bool)
            → (is_plain (
                  join
                    (codes " ")
                    (if b then map (λ (d : Text). codes "http://" ++ d) (names h) else names h))
                ≡ true)
              × Begins (
                  join
                    (codes " ")
                    (if b then map (λ (d : Text). codes "http://" ++ d) (names h) else names h))
        go true = (
          join-plain _ (http-plain (names h) (site-plain h r)),
          join-Begins _ _ (b'h', codes "ttp://" ++ h.domain, refl, refl, refl),
        )
        go false = (
          join-plain _ (site-plain h r),
          join-Begins _ _ (domain-Begins (Matches-IsAddress r.domain.matches)),
        )
