-- ===== src/Caddy/SiteBlock.antt =====
-- internal/caddy/validate.go, `ValidateFullCaddyBlock` and `ValidateFullCaddyBlockForDomains`: a
-- complete site block that a user writes in place of the generated one. The two maps of allowed
-- addresses are lists. `wide` is the lower case of code points beyond ASCII.
pub mod Braces
pub mod Addresses
pub mod Accepted
use pdai_server_panel.Common.{
  ℕ, zero, suc, ◌+◌, Bool, true, false, ◌&&◌, ◌||◌, not, Option, none, some, List, [], ◌∷◌, ◌==◌,
  if◌then◌else◌, null, any, Result, ok, err,
}
use pdai_server_panel.Text.{
  Text, codes, text_eq, split, trim_space, trim_suffix, has_suffix, contains_any, to_lower,
}
use pdai_server_panel.Caddy.Domain.{
  DomainError, Normalized, rejected, accepted, normalize_domain_address,
}
use pdai_server_panel.Caddy.Directives.{line_text}

pub data BlockError : Type 0 where
  bad_domain bad_address : DomainError → BlockError
  no_domain null_byte bad_start empty_address no_opening : BlockError
  foreign_domain : Text → BlockError
  content_after closes_too_much : ℕ → BlockError
  unbalanced : ℕ → BlockError

-- `primary`, `allowedExact` and `allowedHostWithoutPort`
pub record Allowed : Type 0 where
  pub primary : Text
  pub exacts : List Text
  pub hosts : List Text

unfoldable pub allow : Allowed → Normalized → Result BlockError Allowed
allow a (rejected e) = err (bad_domain e)
allow a (accepted exact host has_port) = ok (record {
  primary = if null a.primary then exact else a.primary;
  exacts = exact ∷ a.exacts;
  hosts = if has_port then a.hosts else host ∷ a.hosts;
})

-- One round of the loop over the host's domains.
unfoldable pub allow_domain : (ℕ → ℕ) → Allowed → Text → Result BlockError Allowed
allow_domain wide a domain =
    let d = to_lower wide (trim_space domain) in
    if null d then ok a else allow a (normalize_domain_address wide d)

unfoldable pub allow_domains : (ℕ → ℕ) → Allowed → List Text → Result BlockError Allowed
allow_domains wide a [] = ok a
allow_domains wide a (d ∷ ds) = elim (allow_domain wide a d) [
  | ok a' ↦ allow_domains wide a' ds
  | err e ↦ err e
]

abbrev pub member : Text → List Text → Bool
member t = any (λ u. text_eq u t)

unfoldable pub check_normalized : Allowed → Normalized → Option BlockError
check_normalized a (rejected e) = some (bad_address e)
check_normalized a (accepted exact host has_port) =
    if not (member exact a.exacts) && not (has_port && member host a.hosts)
    then some (foreign_domain exact)
    else none

-- One round of the loop over the site addresses.
unfoldable pub check_address : (ℕ → ℕ) → Allowed → Text → Option BlockError
check_address wide a address =
    let t = trim_space address in
    if null t then some empty_address else check_normalized a (normalize_domain_address wide t)

unfoldable pub check_addresses : (ℕ → ℕ) → Allowed → List Text → Option BlockError
check_addresses wide a [] = none
check_addresses wide a (t ∷ ts) = elim (check_address wide a t) [
  | none ↦ check_addresses wide a ts
  | some e ↦ some e
]

-- `braceDepth`, `seenOpen` and `closedRoot`
pub record Scan : Type 0 where
  pub depth : ℕ
  pub seen_open : Bool
  pub closed_root : Bool

unfoldable pub close_brace : Scan → ℕ → Option Scan
close_brace s zero = none
close_brace s (suc d) =
    some (record s { depth = d; closed_root = s.closed_root || (s.seen_open && d == 0) })

-- One round of the loop over the characters; `none` is the return for an unbalanced brace.
unfoldable pub scan_char : Scan → ℕ → Option Scan
scan_char s c =
    if c == b'{'
    then some (record s { depth = suc s.depth; seen_open = true })
    else if c == b'}'
    then close_brace s s.depth
    else some s

unfoldable pub scan_chars : Scan → Text → Option Scan
scan_chars s [] = some s
scan_chars s (c ∷ t) = elim (scan_char s c) [ none ↦ none | some s' ↦ scan_chars s' t ]

abbrev pub scanned : ℕ → Option Scan → Result BlockError Scan
scanned i none = err (closes_too_much (i + 1))
scanned i (some s) = ok s

unfoldable pub scan_text : ℕ → Scan → Text → Result BlockError Scan
scan_text i s [] = ok s
scan_text i s (c ∷ t) =
    if s.closed_root then err (content_after (i + 1)) else scanned i (scan_chars s (c ∷ t))

-- One round of the loop over the lines. The text of a line passed over is empty.
unfoldable pub scan_line : ℕ → Scan → Text → Result BlockError Scan
unfolding scan_text
scan_line i s line = scan_text i s (line_text line)

-- The loop, and the tests that follow it.
unfoldable pub scan_lines : ℕ → Scan → List Text → Option BlockError
scan_lines i s [] =
    if not s.seen_open
    then some no_opening
    else if s.depth == 0
    then none
    else some (unbalanced s.depth)
scan_lines i s (line ∷ lines) = elim (scan_line i s line) [
  | ok s' ↦ scan_lines (i + 1) s' lines
  | err e ↦ some e
]

abbrev pub start : Scan
start = record { depth = 0; seen_open = false; closed_root = false }

-- The site addresses of the first line.
unfoldable pub addresses_of : Text → List Text
addresses_of line = split (λ c. c == b',') (trim_space (trim_suffix line (codes "{")))

unfoldable pub validate_lines : (ℕ → ℕ) → Allowed → List Text → Option BlockError
validate_lines wide a [] = some bad_start
validate_lines wide a (l ∷ ls) =
    let first = trim_space l in
    if not (has_suffix first (codes "{"))
    then some bad_start
    else elim (check_addresses wide a (addresses_of first)) [
      | some e ↦ some e
      | none ↦ scan_lines 0 start (l ∷ ls)
    ]

unfoldable pub validate_block : (ℕ → ℕ) → Text → Result BlockError Allowed → Option BlockError
validate_block wide block (err e) = some e
validate_block wide block (ok a) =
    if null a.primary
    then some no_domain
    else if contains_any block (0 ∷ [])
    then some null_byte
    else validate_lines wide a (split (λ c. c == 10) block)

-- `none` is the accepted case.
unfoldable pub validate_full_caddy_block_for_domains :
    (ℕ → ℕ) → List Text → Text → Option BlockError
validate_full_caddy_block_for_domains wide domains text =
    let block = trim_space text in
    if null block
    then none
    else validate_block wide block
        (allow_domains wide (record { primary = []; exacts = []; hosts = [] }) domains)

unfoldable pub validate_full_caddy_block : (ℕ → ℕ) → Text → Text → Option BlockError
validate_full_caddy_block wide domain text =
    validate_full_caddy_block_for_domains wide (domain ∷ []) text
