-- ===== src/Host/Create/Made.antt =====
-- The hosts after a create.
use pdai_server_panel.Common.{
  ℕ, true, false, Option, none, some, List, [], ◌∷◌, ◌≡◌, refl, arith, All, In, null, Result, ok,
  err,
}
use pdai_server_panel.Text.{Text, codes}
use pdai_server_panel.Model.{Host, HostDomain, BasicAuth}
use pdai_server_panel.Caddy.Domain.{DomainError}
use pdai_server_panel.Caddy.Domain.Accepted.{IsDomain}
use pdai_server_panel.Caddy.Domain.Pattern.{Matches-IsAddress}
use pdai_server_panel.Caddy.FileName.{safe_domain_file_name}
use pdai_server_panel.Caddy.FileName.Laws.{safe_domain_file_name-IsFileName}
use pdai_server_panel.Caddy.Render.Lines.{is_plain}
use pdai_server_panel.Caddy.Render.Sites.{safe-plain}
use pdai_server_panel.Host.Request.{HostCreateRequest, host_domains_from_request}
use pdai_server_panel.Host.Request.Valid.{
  AllOk, Filled, host_domains_from_request-AllOk, host_domains_from_request-Filled,
}
use pdai_server_panel.Host.Claim.{check_domain_conflicts}
use pdai_server_panel.Host.Claim.Kept.{
  IsSound, join-IsSound, domains-plain, claim_requested_domains-IsSound,
}
use pdai_server_panel.Host.Checks.{Library, HostError, check_upstreams, check_ranges}
use pdai_server_panel.Host.Rows.{first_or}
use pdai_server_panel.Host.Create.{
  apply_default_site_paths, check_create, made, create_hashed, create_checked, create_claimed,
  create, transaction, applied,
}
use pdai_server_panel.Host.Update.Inputs.{
  or_else-none, directive_error-none, block_error-none, string_or_default-plain,
  check_upstreams-plain, with_ids-plain, check_ranges-plain, check_headers-plain,
  full_block-Balanced, PlainAuths, PlainHashed, hashed-plain,
}
use pdai_server_panel.Host.Update.Written.{rows-AreDomains, check_values-PlainValues}

-- What a create does not check itself.
abbrev pub IsChecked : Library → HostCreateRequest → Type 0
IsChecked lib req =
    (check_upstreams lib req.upstreams ≡ none) × (check_ranges lib req.access_rules ≡ none)

-- filepath.Join puts no brace and no newline into a path.
abbrev pub JoinsPlain : Library → Type 0
JoinsPlain lib =
    (is_plain lib.data_dir ≡ true)
    × ((parts : List Text)
        → All (λ t. is_plain t ≡ true) parts
        → is_plain (lib.join_path parts) ≡ true)

module _ (lib : Library) where
  base-plain :
      (domain : Text)
      → JoinsPlain lib
      → is_plain (lib.join_path (lib.data_dir ∷ codes "www" ∷ safe_domain_file_name domain ∷ []))
        ≡ true
  base-plain domain (d, j) = j _ (
    d,
    (
      refl,
      (
        safe-plain (safe_domain_file_name domain) (safe_domain_file_name-IsFileName domain).safe,
        tt,
      ),
    ),
  )

  -- The default paths are plain, and nothing else of the request changes.
  made-IsSound :
      (id : ℕ) (domains : List Text) (req : HostCreateRequest) (auths : List BasicAuth)
      → JoinsPlain lib
      → IsChecked lib req
      → All IsDomain domains
      → null domains ≡ false
      → check_create lib domains req ≡ none
      → PlainAuths auths
      → IsSound (made lib id domains (apply_default_site_paths lib (first_or [] domains) req) auths)
  unfolding check_create made apply_default_site_paths
  made-IsSound id [] req auths j c v n h a = absurd (ground (arith, n))
  made-IsSound id (d ∷ ds) req auths j (ups, ranges) (v, vs) n h a =
      let (dirs, h1) = or_else-none _ _ h in
      let (block, h2) = or_else-none _ _ h1 in
      let (vals, h3) = or_else-none _ _ h2 in
      let (heads, h4) = or_else-none _ _ h3 in
      let values = check_values-PlainValues req vals in
      let more = rows-AreDomains id 0 ds vs in
      let base = base-plain d j in
      let filled : null d ≡ false = rw (← (Matches-IsAddress v.matches).parts) refl in
      rw filled (
        (
          record {
            domain = v;
            others = domains-plain _ more;
            cert = refl;
            key = refl;
            redirect = values.redirect;
            root = string_or_default-plain req.root_path _ values.root (j.1 _ (base, (refl, tt)));
            index = values.index;
            fastcgi = values.fastcgi;
            error_pages =
                string_or_default-plain req.error_page_path _ values.error_pages
                  (j.1 _ (base, (refl, tt)));
            origins = values.origins;
            methods = values.methods;
            headers = values.headers;
            addresses = with_ids-plain lib 0 _ (check_upstreams-plain lib id 0 req.upstreams ups);
            paths = tt;
            custom = check_headers-plain id 0 req.custom_headers heads;
            ranges = check_ranges-plain lib id 0 req.access_rules ranges;
            auths = a;
            directives = directive_error-none _ dirs;
            full =
                full_block-Balanced lib.wide (d ∷ ds) req.full_caddy_block
                  (block_error-none _ block);
          },
          record { primary = v; more = more },
        ))

  module _ (plain_hash : (p h : Text) → lib.hash_password p ≡ some h → is_plain h ≡ true)
      (keeps : (ds : List HostDomain) (d : HostDomain) → In d (lib.order_domains ds) → In d ds)
      (j : JoinsPlain lib) where
    -- When all hosts can be rendered, all hosts can be rendered after a create whose upstream
    -- addresses and ranges would be accepted by an update.
    pub create-IsSound :
        (req : HostCreateRequest) (hosts : List Host)
        → IsChecked lib req
        → All IsSound hosts
        → All IsSound (create lib req hosts).0
    unfolding create
    create-IsSound req hosts c a =
        kept (create_claimed lib req hosts (host_domains_from_request lib.wide req)) (
          go (host_domains_from_request lib.wide req)
            (host_domains_from_request-AllOk lib.wide IsDomain (λ d v. v) req)
            (host_domains_from_request-Filled lib.wide req))
      where
        -- Neither the roll-back nor the configuration adds a host.
        kept :
            (x : List Host × Result HostError Host)
            → All IsSound x.0
            → All IsSound (applied lib (transaction hosts x)).0
        kept (after, err e) b = a
        kept (after, ok new) b = b

        hash :
            (domains : List Text) (claimed : List Host) (r : Result HostError (List BasicAuth))
            → PlainHashed r
            → All IsDomain domains
            → null domains ≡ false
            → check_create lib domains req ≡ none
            → All IsSound claimed
            → All IsSound (create_hashed lib domains req claimed r).0
        hash domains claimed (err e) p v n k b = b
        hash domains claimed (ok auths) p v n k b =
            join-IsSound claimed _ b ((made-IsSound _ domains req auths j c v n k p, tt))

        passed :
            (domains : List Text) (claimed : List Host) (o : Option Text) (e : Option HostError)
            → check_create lib domains req ≡ e
            → All IsDomain domains
            → null domains ≡ false
            → All IsSound claimed
            → All IsSound (create_checked lib domains req claimed o e).0
        passed domains claimed (some d) e k v n b = b
        passed domains claimed none (some e) k v n b = b
        passed domains claimed none none k v n b =
            hash domains claimed _ (hashed-plain lib _ plain_hash req.basic_auths) v n k b

        go :
            (r : Result DomainError (List Text))
            → AllOk IsDomain r
            → Filled r
            → All IsSound (create_claimed lib req hosts r).0
        go (err e) v n = a
        go (ok domains) v n =
            passed domains _ (check_domain_conflicts lib.wide none domains _)
              (check_create lib domains req) refl v n
              (claim_requested_domains-IsSound lib.wide lib.fold lib.order_domains keeps none
                domains hosts a)
