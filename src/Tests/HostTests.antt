-- ===== src/Tests/HostTests.antt =====
-- internal/service/host.go at concrete inputs.
use pdai_server_panel.Common.{
  ℕ, ◌≢◌, ap, length, arith, true, false, none, some, List, [], ◌∷◌, ◌++◌, ◌≡◌, ◌==◌, refl, inl,
  All, ok, err,
}
use pdai_server_panel.Text.{
  Text, codes, split, trim_space, has_prefix, to_lower, text_eq, byte_len, contains_any, decimal,
}
use pdai_server_panel.Regex.{match_string}
use pdai_server_panel.Model.{Host}
use pdai_server_panel.Caddy.Domain.{domain_regex, split_domain_port, validate_domain}
use pdai_server_panel.Caddy.Directives.{
  sanitize_custom_directives, sanitize_lines, line_text, validate_caddy_value,
}
use pdai_server_panel.Caddy.SiteBlock.{validate_full_caddy_block_for_domains}
use pdai_server_panel.Caddy.Directives.Balance.{Balanced}
use pdai_server_panel.Caddy.Directives.Sanitized.{effective}
use pdai_server_panel.Caddy.ConfigFile.{CaddyFiles, Disk, write_caddyfile}
use pdai_server_panel.Caddy.Upstream.{
  validate_upstream, clean_upstream, check_split, check_host, bad_upstream,
}
use pdai_server_panel.Host.Request.{
  HostCreateRequest, host_domains_from_request, normalize_host_domains, normalize_extras,
}
use pdai_server_panel.Host.Claim.{
  taken, check_domain_conflicts, claim_requested_domains, keys, keep, claim_hosts, claim_host,
  promote,
}
use pdai_server_panel.Host.Claim.Free.{claim_requested_domains-check}
use pdai_server_panel.Host.Claim.Kept.{IsSound}
use pdai_server_panel.Host.Checks.{
  invalid_upstream, upstream_required, check_request, check_upstreams, check_values, check_value,
  check_headers, check_type, check_ranges,
}
use pdai_server_panel.Host.Update.{update, find_host, claim_and_write}
use pdai_server_panel.Host.Update.Renderable.{update-IsSound}
use pdai_server_panel.Host.Update.Claimed.{update-taken}
use pdai_server_panel.Host.Create.{
  create, create_claimed, check_create, check_create_required, apply_default_site_paths,
}
use pdai_server_panel.Host.Create.Made.{IsChecked}
use pdai_server_panel.Host.Create.Outcome.{Outcome, create-Outcome}
use pdai_server_panel.Host.Apply.{Server, apply_config, caddyfile, not_reloaded, apply_content}
use pdai_server_panel.Host.Apply.Restored.{apply_config-restored}
use pdai_server_panel.Host.Run.{
  Call, after_calls, create_call, update_call, toggle_call, delete_call, clone_call, import_call,
  cert_call,
}
use pdai_server_panel.Host.Run.Configured.{after_calls-Balanced}
use pdai_server_panel.Tests.Hosts.{
  first_domain, second_domain, first-IsDomain, second-IsDomain, no_domains, two_hosts, two_domains,
  two_hosts-IsSound, two_hosts-IsStored, taking, wide, wide-lower, lib, hash-plain, lib-JoinsPlain,
  unsorted, unsorted-Keeps,
}

-- An address of an upstream that would close the site's block.
abbrev breaking : Text
breaking = codes "x" ++ 10 ∷ codes "}"

taking_domains : host_domains_from_request wide (taking breaking) ≡ ok (second_domain ∷ [])
unfolding host_domains_from_request normalize_host_domains normalize_extras to_lower trim_space
    validate_domain split_domain_port byte_len contains_any domain_regex match_string decimal
taking_domains = refl

found : find_host 2 two_hosts ≡ some no_domains
unfolding find_host
found = refl

-- The update is refused, and yet the first host has lost its additional domain.
refused : (update lib 2 (taking breaking) two_hosts).1 ≡ err (invalid_upstream bad_upstream)
unfolding update find_host host_domains_from_request normalize_host_domains normalize_extras
    to_lower trim_space validate_domain split_domain_port byte_len contains_any domain_regex
    match_string decimal claim_and_write claim_requested_domains keys claim_hosts claim_host promote
    keep check_domain_conflicts taken text_eq check_request check_upstreams validate_upstream
refused = refl

update-taken_example :
    taken (some 2) second_domain (update lib 2 (taking breaking) two_hosts).0 ≡ false
update-taken_example =
    update-taken lib wide-lower (λ ds d i. i) 2 (taking breaking) two_hosts no_domains
      (second_domain ∷ []) two_hosts-IsStored found taking_domains second_domain (inl refl)

update-IsSound_example : All IsSound (update lib 2 (taking (codes "localhost:80")) two_hosts).0
update-IsSound_example =
    update-IsSound lib hash-plain (λ ds d i. i) 2 (taking (codes "localhost:80")) two_hosts
      two_hosts-IsSound

claim_requested_domains-check_example :
    check_domain_conflicts wide (some 2) (first_domain ∷ second_domain ∷ []) (
      claim_requested_domains wide wide
        (λ ds. ds)
        (some 2)
        (first_domain ∷ second_domain ∷ [])
        two_hosts)
    ≡ none
unfolding to_lower
claim_requested_domains-check_example =
    claim_requested_domains-check wide wide (λ ds. ds) (λ ds d i. i) (some 2)
      (first_domain ∷ second_domain ∷ []) two_hosts
      ((first-IsDomain, refl), ((second-IsDomain, refl), tt)) two_hosts-IsStored

-- It claims a domain of the first host before it is refused.
abbrev without_upstream : HostCreateRequest
without_upstream = record (taking []) { upstreams = [] }

create_refused : (create lib without_upstream two_hosts).1 ≡ err upstream_required
unfolding create host_domains_from_request normalize_host_domains normalize_extras to_lower
    trim_space validate_domain split_domain_port byte_len contains_any domain_regex match_string
    decimal claim_requested_domains keys claim_hosts claim_host promote keep check_domain_conflicts
    taken text_eq check_create check_create_required apply_default_site_paths
    sanitize_custom_directives sanitize_lines split line_text has_prefix check_values check_value
    check_headers check_type validate_caddy_value validate_full_caddy_block_for_domains
create_refused = refl

-- The transaction has taken the domain before it is rolled back.
taken_back : (create_claimed lib without_upstream two_hosts (ok (second_domain ∷ []))).0 ≢ two_hosts
unfolding claim_requested_domains keys claim_hosts claim_host promote keep check_domain_conflicts
    taken text_eq check_create check_create_required apply_default_site_paths
    sanitize_custom_directives sanitize_lines split line_text has_prefix check_values check_value
    check_headers check_type validate_caddy_value validate_full_caddy_block_for_domains trim_space
    to_lower
taken_back e = rows_lost (ap rows_of e)
  where
    rows_of : List Host → ℕ
    rows_of [] = 0
    rows_of (h ∷ hs) = length h.domains

    rows_lost : ◌≢◌ {A = ℕ} 0 1
    rows_lost k = omega (arith, k)

create-Outcome_example :
    Outcome lib without_upstream two_hosts (create lib without_upstream two_hosts)
create-Outcome_example =
    create-Outcome lib wide-lower (λ ds d i. i) without_upstream two_hosts two_hosts-IsStored

abbrev disk : Disk
disk = record {
  write_ok = true;
  caddy_found = true;
  is_valid = λ t. true;
  rename_ok = true;
  stamp = codes "1";
}

abbrev files : CaddyFiles
files = record { current = some (codes "old"); temp = none; backups = [] }

abbrev failing : Server
failing = record { auto_reload = true; running = true; reload_ok = false }

reload_refused :
    (apply_config unsorted wide
      (λ t. none)
      (codes "/log")
      (codes "now")
      failing
      disk
      disk
      []
      []
      two_hosts
      files).1
    ≡ some not_reloaded
unfolding apply_config apply_content write_caddyfile
reload_refused = refl

apply_config-restored_example :
    (apply_config unsorted wide
      (λ t. none)
      (codes "/log")
      (codes "now")
      failing
      disk
      disk
      []
      []
      two_hosts
      files).0.current
    ≡ some (codes "old")
apply_config-restored_example =
    apply_config-restored unsorted wide (λ t. none) (codes "/log") (codes "now") failing disk disk
      [] [] two_hosts files (codes "old") not_reloaded refl refl
      (record { writes = refl; accepts = λ h. refl; renames = refl }) reload_refused

-- A create whose upstream an update would accept.
plain_create-IsChecked : IsChecked lib (taking (codes "localhost:80"))
unfolding check_upstreams validate_upstream contains_any byte_len check_ranges clean_upstream
    check_split check_host has_prefix
plain_create-IsChecked = (refl, refl)

abbrev some_calls : List Call
some_calls =
    create_call (taking (codes "localhost:80"))
    ∷ update_call 2 (taking (codes "localhost:80"))
    ∷ toggle_call 1
    ∷ clone_call 2 second_domain
    ∷ delete_call 1
    ∷ import_call (two_domains ∷ [])
    ∷ cert_call 7 (codes "/a.pem") (codes "/a.key")
    ∷ []

after_calls-Balanced_example : Balanced (
    effective (
      split
        (λ c. c == 10)
        (caddyfile unsorted wide
          (λ t. none)
          (codes "/log")
          (codes "now")
          []
          []
          (after_calls lib some_calls two_hosts))))
after_calls-Balanced_example =
    after_calls-Balanced unsorted unsorted-Keeps (λ t. none) (codes "/log") refl lib hash-plain
      (λ ds d i. i) lib-JoinsPlain some_calls two_hosts [] [] (codes "now")
      (
        plain_create-IsChecked,
        (
          tt,
          (
            tt,
            (tt, (tt, ((record { cert = refl; key = refl; auths = tt }, tt), ((refl, refl), tt)))),
          ),
        ),
      )
      two_hosts-IsSound tt refl
