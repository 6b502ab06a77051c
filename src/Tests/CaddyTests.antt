-- ===== src/Tests/CaddyTests.antt =====
-- internal/caddy/validate.go at concrete inputs, most of them those of validate_test.go.
use pdai_server_panel.Common.{
  ℕ, true, ◌≡◌, ◌≢◌, ◌↔◌, refl, none, some, List, [], ◌∷◌, ◌++◌, ◌==◌, take, arith, ◌-◌, ◌≤◌, ◌<◌,
}
use pdai_server_panel.Text.{
  Text, codes, split, trim_space, to_lower, fields, has_prefix, has_suffix, trim_prefix,
  trim_suffix, byte_len, contains_any, decimal, text_eq,
}
use pdai_server_panel.Regex.{match_string}
use pdai_server_panel.Caddy.Domain.{
  domain_regex, split_domain_port, validate_domain, bad_port, bad_format, accepted,
  normalize_domain_address, strip_scheme, accept, domain_host,
}
use pdai_server_panel.Caddy.Domain.Split.{
  IsSplit, split_domain_port-IsSplit, split_domain_port-append,
}
use pdai_server_panel.Caddy.Domain.Accepted.{IsDomain, validate_domain_iff}
use pdai_server_panel.Caddy.Domain.Host.{normalize_domain_address-IsDomain}
use pdai_server_panel.Caddy.FileName.{safe_domain_file_name, shorten}
use pdai_server_panel.Caddy.FileName.Laws.{
  IsFileName, safe_domain_file_name-IsFileName, safe_domain_file_name-first,
  safe_domain_file_name-injective,
}
use pdai_server_panel.Caddy.Directives.{
  sanitize_custom_directives, sanitize_lines, line_text, brace_depth, brace_step, closes_parent,
}
use pdai_server_panel.Caddy.Directives.Balance.{Balanced}
use pdai_server_panel.Caddy.Directives.Sanitized.{effective, sanitize_custom_directives_iff}
use pdai_server_panel.Caddy.Directives.Refused.{count, sanitize_lines-names}
use pdai_server_panel.Caddy.SiteBlock.{
  validate_full_caddy_block_for_domains, validate_full_caddy_block, validate_block, validate_lines,
  allow_domains, allow_domain, allow, check_addresses, check_address, check_normalized,
  addresses_of, scan_lines, scan_line, scan_chars, scan_char, close_brace,
}
use pdai_server_panel.Caddy.SiteBlock.Accepted.{IsSiteBlock, validate_full_caddy_block-IsSiteBlock}
use pdai_server_panel.Caddy.Render.{render_caddyfile}
use pdai_server_panel.Caddy.Render.Rendered.{render_caddyfile-Balanced}
use pdai_server_panel.Caddy.Upstream.{
  extract_site_addresses, all_addresses, line_addresses, add_addresses, add_address,
}
use pdai_server_panel.Caddy.ConfigFile.{File, count_backups, remove_backups, cleanup_backups}
use pdai_server_panel.Caddy.ConfigFile.Kept.{
  other_files, backups_of, drop_files, cleanup_backups-bound,
}
use pdai_server_panel.Caddy.Reload.{
  ReloadState, idle, firing, request, take_waiters, answer_all, send, Reachable, begins, calls,
  goes, fires, reloads, takes, sends,
}
use pdai_server_panel.Caddy.Reload.Answered.{
  Runs, rests, steps, IsStuck, steps_left, results, times, request-IsAnswered,
}
use pdai_server_panel.Tests.Hosts.{two_domains, two_hosts-IsSound, unsorted, unsorted-Keeps}

abbrev with_port : Text
with_port = codes "*.example.com:8443"

with_port_accepted : validate_domain with_port ≡ none
unfolding validate_domain split_domain_port byte_len contains_any domain_regex match_string decimal
with_port_accepted = refl

port_zero : validate_domain (codes "example.com:0") ≡ some bad_port
unfolding validate_domain split_domain_port byte_len contains_any domain_regex match_string decimal
port_zero = refl

port_missing : validate_domain (codes "example.com:") ≡ some bad_format
unfolding validate_domain split_domain_port byte_len contains_any domain_regex match_string decimal
port_missing = refl

host_without_scheme : domain_host (codes "http://example.com:8080") ≡ codes "example.com"
unfolding domain_host trim_space strip_scheme has_prefix trim_prefix split_domain_port
host_without_scheme = refl

file_name_of_port : safe_domain_file_name (codes "example.com:8080") ≡ codes "example.com_8080"
unfolding safe_domain_file_name shorten trim_space
file_name_of_port = refl

validate_domain_iff_example : (validate_domain with_port ≡ none) ↔ IsDomain with_port
validate_domain_iff_example = validate_domain_iff with_port

split_domain_port-IsSplit_example : IsSplit with_port (split_domain_port with_port)
split_domain_port-IsSplit_example = split_domain_port-IsSplit with_port

split_domain_port-append_example :
    split_domain_port (codes "localhost" ++ b':' ∷ codes "3000")
    ≡ record { host = codes "localhost"; port = codes "3000"; has_port = true }
split_domain_port-append_example =
    split_domain_port-append (codes "localhost") (codes "3000") refl refl

abbrev plain : ℕ → ℕ
plain c = c

normalized :
    normalize_domain_address plain (codes " http://Example.com:8080 ")
    ≡ accepted (codes "example.com:8080") (codes "example.com") true
unfolding normalize_domain_address to_lower trim_space strip_scheme has_prefix trim_prefix accept
    validate_domain split_domain_port byte_len contains_any domain_regex match_string decimal
normalized = refl

normalize_domain_address-IsDomain_example :
    IsDomain (codes "example.com:8080")
    × (domain_host (codes "example.com:8080") ≡ codes "example.com")
    × ((split_domain_port (codes "example.com:8080")).has_port ≡ true)
normalize_domain_address-IsDomain_example =
    normalize_domain_address-IsDomain plain (codes " http://Example.com:8080 ") normalized

safe_domain_file_name-IsFileName_example : IsFileName (safe_domain_file_name (codes "../etc"))
safe_domain_file_name-IsFileName_example = safe_domain_file_name-IsFileName (codes "../etc")

with_port-IsDomain : IsDomain with_port
with_port-IsDomain = (validate_domain_iff with_port).0 with_port_accepted

safe_domain_file_name-first_example :
    (c : ℕ) × (t : Text) × (safe_domain_file_name with_port ≡ c ∷ t) × (c ≢ b'.')
safe_domain_file_name-first_example = safe_domain_file_name-first with_port with_port-IsDomain

safe_domain_file_name-injective_example : with_port ≡ with_port
safe_domain_file_name-injective_example =
    safe_domain_file_name-injective with_port with_port with_port-IsDomain with_port-IsDomain
      (omega arith) (omega arith) refl

abbrev nested : Text
nested = codes "handle {" ++ 10 ∷ codes "# }" ++ 10 ∷ codes "}"

sanitize_custom_directives_iff_example :
    (sanitize_custom_directives nested ≡ none) ↔ Balanced (effective (split (λ c. c == 10) nested))
sanitize_custom_directives_iff_example = sanitize_custom_directives_iff nested

abbrev escaping : List Text
escaping = codes "log" ∷ codes "} {" ∷ []

escaping_refused : sanitize_lines 0 0 escaping ≡ some (closes_parent 2)
unfolding sanitize_lines line_text trim_space has_prefix brace_depth brace_step
escaping_refused = refl

sanitize_lines-names_example :
    ((m : ℕ)
      → count b'}' (take m (effective (take (2 - 1) escaping)))
        ≤ count b'{' (take m (effective (take (2 - 1) escaping))))
    × (m : ℕ) × (count b'{' (take m (effective (take 2 escaping)))
        < count b'}' (take m (effective (take 2 escaping))))
sanitize_lines-names_example = sanitize_lines-names escaping escaping_refused

abbrev own_block : Text
own_block = codes "example.com:8443 {" ++ 10 ∷ codes " respond ok" ++ 10 ∷ codes "}"

abbrev own_domains : List Text
own_domains = codes "Example.com" ∷ []

own_block_accepted : validate_full_caddy_block_for_domains plain own_domains own_block ≡ none
unfolding validate_full_caddy_block_for_domains validate_block validate_lines allow_domains
    allow_domain allow check_addresses check_address check_normalized addresses_of scan_lines
    scan_line scan_chars scan_char close_brace text_eq has_suffix trim_suffix contains_any split
    normalize_domain_address to_lower trim_space strip_scheme has_prefix trim_prefix accept
    validate_domain split_domain_port byte_len domain_regex match_string decimal line_text
own_block_accepted = refl

-- A second site on the line that closes the first is accepted.
abbrev second_site : Text
second_site = codes "example.com {" ++ 10 ∷ codes "} evil.com { respond 1 }"

second_site_accepted : validate_full_caddy_block plain (codes "example.com") second_site ≡ none
unfolding validate_full_caddy_block validate_full_caddy_block_for_domains validate_block
    validate_lines allow_domains allow_domain allow check_addresses check_address check_normalized
    addresses_of scan_lines scan_line scan_chars scan_char close_brace text_eq has_suffix
    trim_suffix contains_any split normalize_domain_address to_lower trim_space strip_scheme
    has_prefix trim_prefix accept validate_domain split_domain_port byte_len domain_regex
    match_string decimal line_text
second_site_accepted = refl

validate_full_caddy_block-IsSiteBlock_example :
    (first : Text) × (lines : List Text) × (split (λ c. c == 10) (trim_space own_block)
      ≡ first ∷ lines)
    × IsSiteBlock plain own_domains first lines
validate_full_caddy_block-IsSiteBlock_example =
    validate_full_caddy_block-IsSiteBlock plain own_domains own_block (unfold trim_space in refl)
      own_block_accepted

render_caddyfile-Balanced_example : Balanced (
    effective (
      split
        (λ c. c == 10)
        (render_caddyfile unsorted plain
          (λ t. none)
          (codes "/log")
          (λ id. none)
          (codes "now")
          (two_domains ∷ []))))
render_caddyfile-Balanced_example =
    render_caddyfile-Balanced unsorted unsorted-Keeps plain (λ t. none) (codes "/log") (λ id. none)
      refl (codes "now") (two_domains ∷ []) refl (two_hosts-IsSound.0.0, tt)

abbrev small_file : Text
small_file = codes "A.io, b.io {" ++ 10 ∷ codes "}"

small_file_addresses : extract_site_addresses plain small_file ≡ codes "b.io" ∷ codes "a.io" ∷ []
unfolding extract_site_addresses all_addresses line_addresses add_addresses add_address split fields
    text_eq has_suffix trim_suffix normalize_domain_address to_lower trim_space strip_scheme
    has_prefix trim_prefix accept validate_domain split_domain_port byte_len contains_any
    domain_regex match_string decimal
small_file_addresses = refl

abbrev two_backups : List File
two_backups =
    record { name = codes "Caddyfile.1.bak"; content = codes "first" }
    ∷ record { name = codes "Caddyfile.2.bak"; content = codes "second" }
    ∷ record { name = codes "notes"; content = codes "x" }
    ∷ []

cleaned : cleanup_backups 1 two_backups ≡ take 2 (drop_files 1 two_backups)
unfolding cleanup_backups count_backups remove_backups has_prefix has_suffix drop_files
cleaned = refl

cleanup_backups-bound_example :
    (count_backups (cleanup_backups 1 two_backups) ≤ 1)
    × (backups_of (cleanup_backups 1 two_backups)
        ≡ drop_files (count_backups two_backups - 1) (backups_of two_backups))
    × (other_files (cleanup_backups 1 two_backups) ≡ other_files two_backups)
cleanup_backups-bound_example = cleanup_backups-bound 1 two_backups

-- The second caller comes while the command runs.
abbrev late : ReloadState
late = record { timer = firing; waiters = 1 ∷ 2 ∷ []; outgoing = []; answers = [] }

late-Reachable : Reachable (1 ∷ 2 ∷ []) late
unfolding request
late-Reachable = calls 2 (goes (calls 1 begins) fires)

-- The second caller is sent its result first.
abbrev both_sent : ReloadState
both_sent = record {
  timer = idle;
  waiters = [];
  outgoing = [];
  answers = record { caller = 2; reload_ok = true } ∷ record { caller = 1; reload_ok = true } ∷ [];
}

late-Runs : Runs 4 late both_sent
unfolding take_waiters answer_all send
late-Runs =
    steps
      (steps (steps (steps rests (reloads true)) (takes true))
        (sends (record { caller = 1; reload_ok = true } ∷ []) [] _))
      (sends [] [] _)

request-IsAnswered_example :
    (4 ≤ steps_left late)
    × (IsStuck both_sent → (w : ℕ) → results w both_sent.answers ≡ times w (1 ∷ 2 ∷ []))
request-IsAnswered_example = request-IsAnswered 4 late-Reachable late-Runs
