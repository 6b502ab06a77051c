-- ===== src/Caddy/Render/Rendered.antt =====
-- The Caddyfile of the hosts.
use mathlib.Core.List.{map}
use pdai_server_panel.Common.{
  ℕ, Bool, true, false, not, ◌&&◌, ◌||◌, Option, none, some, List, [], ◌∷◌, ◌++◌, ◌==◌, ◌≡◌, refl,
  ◌∙◌, if◌then◌else◌, null, ℤ, All,
}
use pdai_server_panel.Text.{
  Text, codes, text_eq, split, trim_left, trim_space, trim_right, is_space, has_prefix,
}
use pdai_server_panel.Model.{Host, DnsProvider}
use pdai_server_panel.Caddy.FileName.{safe_domain_file_name}
use pdai_server_panel.Caddy.FileName.Laws.{safe_domain_file_name-IsFileName}
use pdai_server_panel.Caddy.Directives.{
  brace_depth, brace_step, line_text, sanitize_custom_directives,
}
use pdai_server_panel.Caddy.Directives.Balance.{Balanced, brace_depth_iff}
use pdai_server_panel.Caddy.Directives.Sanitized.{effective, sanitize_custom_directives_iff}
use pdai_server_panel.Caddy.Directives.Trimmed.{effective-trim_space}
use pdai_server_panel.Caddy.Render.Parts.{
  is_true, is_false, render_redirect, render_static_host, render_php_host,
}
use pdai_server_panel.Caddy.Render.{
  site_mode, provider_lines, provider_of, tls_lines, type_lines, directive_lines, access_log_lines,
  body_lines, site_line, render_host_block, host_blocks, global_lines, render_caddyfile,
  render_proxy_host,
}
use pdai_server_panel.Caddy.Render.Lines.{
  is_plain, IsBlock, nil-IsBlock, append-IsBlock, plain-IsBlock, nest-IsBlock, plain-append,
  split-text_of,
}
use pdai_server_panel.Caddy.Render.Blocks.{
  both-plain, plain-both-one_line, render_php_host-IsBlock, render_redirect-IsBlock,
  render_security_headers-IsBlock, render_basic_auth-IsBlock, render_compression-IsBlock,
  render_static_host-IsBlock, render_cors-IsBlock, render_error_pages-IsBlock,
}
use pdai_server_panel.Caddy.Render.Dns.{render_dns_tls-IsBlock}
use pdai_server_panel.Caddy.Render.Sorted.{
  Keeps, render_access_rules-IsBlock, render_proxy_host-IsBlock,
}
use pdai_server_panel.Caddy.Render.Sites.{
  IsRenderable, Balanced-IsBlock, indent-effective, indent-lines, open-IsBlock, safe-plain,
  site_names-open,
}

-- A part that is written under a condition.
if-IsBlock : (b : Bool) (ls : List Text) → IsBlock ls → IsBlock (if b then ls else [])
if-IsBlock true ls h = h
if-IsBlock false ls h = nil-IsBlock

module _ (sort : (A : Type 0) → (A → ℤ) → List A → List A) (keeps : Keeps sort) (wide : ℕ → ℕ)
    (parse_json : Text → Option (Text → Text)) (log_dir : Text) (providers : ℕ → Option DnsProvider)
    (clean : is_plain log_dir ≡ true) where
  provider_lines-IsBlock :
      (o : Option DnsProvider) → IsBlock (provider_lines sort wide parse_json log_dir providers o)
  unfolding provider_lines
  provider_lines-IsBlock none = nil-IsBlock
  provider_lines-IsBlock (some p) = render_dns_tls-IsBlock parse_json p

  tls_lines-IsBlock :
      (h : Host) → IsRenderable h → IsBlock (tls_lines sort wide parse_json log_dir providers h)
  unfolding tls_lines
  tls_lines-IsBlock h r =
      go (text_eq (site_mode sort wide parse_json log_dir providers h) (codes "custom"))
        (not (null h.custom_cert_path) && not (null h.custom_key_path))
        (text_eq (site_mode sort wide parse_json log_dir providers h) (codes "dns")
          || text_eq (site_mode sort wide parse_json log_dir providers h) (codes "wildcard"))
    where
      go :
          (a b c : Bool)
          → IsBlock (
              if a
              then if b
                then (codes "\ttls " ++ (h.custom_cert_path ++ (codes " " ++ h.custom_key_path)))
                  ∷ []
                else []
              else if c
              then provider_lines sort wide parse_json log_dir providers
                  (provider_of sort wide parse_json log_dir providers h.dns_provider_id)
              else [])
      go true b c = if-IsBlock b _ (plain-IsBlock _ (both-plain h.custom_cert_path _ r.cert r.key))
      go false b c = if-IsBlock c _ (provider_lines-IsBlock _)

  type_lines-IsBlock :
      (h : Host) → IsRenderable h → IsBlock (type_lines sort wide parse_json log_dir providers h)
  unfolding type_lines
  type_lines-IsBlock h r =
      go (text_eq h.host_type (codes "redirect")) (text_eq h.host_type (codes "static"))
        (text_eq h.host_type (codes "php"))
    where
      go :
          (a b c : Bool)
          → IsBlock (
              if a
              then render_redirect h
              else if b
              then render_static_host h
              else if c
              then render_php_host h
              else render_proxy_host sort h)
      go true b c = render_redirect-IsBlock h r.redirect
      go false true c = render_static_host-IsBlock h r.root r.index
      go false false true = render_php_host-IsBlock h r.root r.fastcgi
      go false false false = render_proxy_host-IsBlock sort keeps h r.addresses r.paths r.custom

  directive_lines-IsBlock :
      (t : Text)
      → sanitize_custom_directives t ≡ none
      → IsBlock (directive_lines sort wide parse_json log_dir providers t)
  unfolding directive_lines
  directive_lines-IsBlock t h = go (null t)
    where
      inner : IsBlock (split (λ c. c == 10) (trim_space t))
      inner =
          Balanced-IsBlock (trim_space t)
            (rw (effective-trim_space t) ((sanitize_custom_directives_iff t).0 h))

      go :
          (b : Bool)
          → IsBlock (
              if b
              then []
              else map (λ (l : Text). codes "\t" ++ l) (split (λ c. c == 10) (trim_space t)))
      go true = nil-IsBlock
      go false = record {
        level = λ d. rw (indent-effective (split (λ c. c == 10) (trim_space t))) (inner.level d);
        lines = indent-lines (split (λ c. c == 10) (trim_space t)) inner.lines;
      }

  access_log_lines-IsBlock :
      (h : Host) → IsBlock (access_log_lines sort wide parse_json log_dir providers h)
  unfolding access_log_lines brace_depth brace_step line_text trim_left trim_space trim_right
      is_space has_prefix
  access_log_lines-IsBlock h =
      let name = safe_domain_file_name h.domain in
      let p : is_plain name ≡ true =
        safe-plain name (safe_domain_file_name-IsFileName h.domain).safe in
      nest-IsBlock b'l' (codes "\tlog {") _ (codes "\t}") refl refl refl (λ d. refl) refl
        (λ d. refl) refl
        (nest-IsBlock b'o'
          (codes "\t\toutput file " ++ (log_dir ++ (codes "/access-" ++ (name ++ codes ".log {"))))
          _ (codes "\t\t}") refl refl refl
          (λ d. plain-append d log_dir _ clean ∙ plain-append d name _ p)
          (plain-both-one_line log_dir _ clean (plain-both-one_line name _ p refl)) (λ d. refl) refl
          (append-IsBlock (plain-IsBlock (codes "\t\t\troll_size 50MiB") refl)
            (plain-IsBlock (codes "\t\t\troll_keep 3") refl)))

  body_lines-IsBlock :
      (h : Host) → IsRenderable h → IsBlock (body_lines sort wide parse_json log_dir providers h)
  unfolding body_lines
  body_lines-IsBlock h r = append-IsBlock (tls_lines-IsBlock h r) (
      append-IsBlock (if-IsBlock (is_true h.compression) _ render_compression-IsBlock) (
        append-IsBlock
          (if-IsBlock (not (null h.access_rules)) _
            (render_access_rules-IsBlock sort keeps h.access_rules r.ranges))
          (append-IsBlock
            (if-IsBlock (not (null h.basic_auths)) _
              (render_basic_auth-IsBlock h.basic_auths r.auths))
            (append-IsBlock
              (if-IsBlock (is_true h.cors_enabled) _
                (render_cors-IsBlock h r.origins r.methods r.headers))
              (append-IsBlock
                (if-IsBlock (is_true h.security_headers) _ render_security_headers-IsBlock)
                (append-IsBlock (type_lines-IsBlock h r) (
                  append-IsBlock (directive_lines-IsBlock h.custom_directives r.directives) (
                    append-IsBlock
                      (if-IsBlock (not (null h.error_page_path)) _
                        (render_error_pages-IsBlock h.error_page_path r.error_pages))
                      (access_log_lines-IsBlock h)))))))))

  empty-IsBlock : IsBlock ([] ∷ [])
  empty-IsBlock = plain-IsBlock [] refl

  render_host_block-IsBlock :
      (h : Host)
      → IsRenderable h
      → IsBlock (render_host_block sort wide parse_json log_dir providers h)
  unfolding render_host_block
  render_host_block-IsBlock h r = go (not (null (trim_space h.full_caddy_block)))
    where
      go :
          (b : Bool)
          → IsBlock (
              if b
              then split (λ c. c == 10) (trim_space h.full_caddy_block) ++ ([] ∷ [])
              else ((site_line sort wide parse_json log_dir providers h ∷ [])
                  ++ (body_lines sort wide parse_json log_dir providers h ++ (codes "}" ∷ [])))
                ++ ([] ∷ []))
      go true = append-IsBlock (Balanced-IsBlock _ r.full) empty-IsBlock
      go false =
          let s = site_names-open sort keeps wide parse_json log_dir providers h r in
          append-IsBlock (open-IsBlock _ s.0 s.1 (body_lines-IsBlock h r)) empty-IsBlock

  host_blocks-IsBlock :
      (hs : List Host)
      → All IsRenderable hs
      → IsBlock (host_blocks sort wide parse_json log_dir providers hs)
  unfolding host_blocks
  host_blocks-IsBlock [] r = nil-IsBlock
  host_blocks-IsBlock (h ∷ hs) (r, rs) = go (is_false h.enabled) (host_blocks-IsBlock hs rs)
    where
      go :
          (b : Bool)
          → IsBlock (host_blocks sort wide parse_json log_dir providers hs)
          → IsBlock (
              if b
              then host_blocks sort wide parse_json log_dir providers hs
              else render_host_block sort wide parse_json log_dir providers h
                ++ host_blocks sort wide parse_json log_dir providers hs)
      go true rest = rest
      go false rest = append-IsBlock (render_host_block-IsBlock h r) rest

  global_lines-IsBlock :
      (now : Text)
      → is_plain now ≡ true
      → IsBlock (global_lines sort wide parse_json log_dir providers now)
  unfolding global_lines brace_depth brace_step line_text trim_left trim_space trim_right is_space
      has_prefix
  global_lines-IsBlock now h =
      append-IsBlock (plain-IsBlock (codes "# ============================================") refl) (
        append-IsBlock (plain-IsBlock (codes "# Auto-generated by Pdai") refl) (
          append-IsBlock
            (plain-IsBlock (codes "# DO NOT EDIT MANUALLY — changes will be overwritten") refl)
            (append-IsBlock (plain-IsBlock (codes "# Generated at: " ++ now) h) (
              append-IsBlock
                (plain-IsBlock (codes "# ============================================") refl)
                (append-IsBlock empty-IsBlock (
                  append-IsBlock
                    (nest-IsBlock b'{' (codes "{") _ (codes "}") refl refl refl (λ d. refl) refl
                      (λ d. refl) refl
                      (append-IsBlock (plain-IsBlock (codes "\tadmin localhost:2019") refl) (
                        nest-IsBlock b'l' (codes "\tlog {") _ (codes "\t}") refl refl refl
                          (λ d. refl) refl (λ d. refl) refl
                          (append-IsBlock
                            (nest-IsBlock b'o'
                              (codes "\t\toutput file " ++ (log_dir ++ codes "/caddy.log {")) _
                              (codes "\t\t}") refl refl refl (λ d. plain-append d log_dir _ clean)
                              (plain-both-one_line log_dir _ clean refl) (λ d. refl) refl
                              (append-IsBlock (plain-IsBlock (codes "\t\t\troll_size 100MiB") refl)
                                (plain-IsBlock (codes "\t\t\troll_keep 5") refl)))
                            (plain-IsBlock (codes "\t\tlevel INFO") refl)))))
                    empty-IsBlock))))))

  -- For a sort that puts nothing into a list, a log directory and a time without braces and
  -- newlines, and hosts whose texts have passed the validators: the braces of the lines of the whole
  -- Caddyfile, comments left out, are balanced.
  pub render_caddyfile-Balanced :
      (now : Text) (hosts : List Host)
      → is_plain now ≡ true
      → All IsRenderable hosts
      → Balanced (
          effective (
            split
              (λ c. c == 10)
              (render_caddyfile sort wide parse_json log_dir providers now hosts)))
  unfolding render_caddyfile
  render_caddyfile-Balanced now hosts h rs =
      let b =
        append-IsBlock (append-IsBlock (global_lines-IsBlock now h) (host_blocks-IsBlock hosts rs))
          empty-IsBlock in
      rw
        (split-text_of _
          (append-IsBlock (global_lines-IsBlock now h) (host_blocks-IsBlock hosts rs)).lines)
        ((brace_depth_iff _).0 (b.level 0))
