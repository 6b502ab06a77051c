-- ===== src/Caddy/Render/Blocks.antt =====
-- The parts of a host's block close what they open.
use pdai_server_panel.Common.{
  ℕ, zero, suc, Bool, true, false, not, List, [], ◌∷◌, ◌++◌, ◌==◌, ◌≡◌, inl, inr, refl, ◌∙◌, arith,
  ltb, ◌/◌, all-append, All, Bool-cases, if◌then◌else◌, null,
}
use pdai_server_panel.Text.{
  Text, codes, trim_left, trim_space, trim_right, is_space, has_prefix, contains_any,
}
use pdai_server_panel.Model.{Host, BasicAuth}
use pdai_server_panel.Caddy.Directives.{brace_depth, brace_step, line_text}
use pdai_server_panel.Caddy.Render.Parts.{
  or_text, is_302, decimal_text, digits, auth_lines, render_basic_auth, render_compression,
  render_cors, render_error_pages, error_page_lines, render_php_host, render_redirect,
  render_security_headers, render_static_host, is_true, quoted_line, dns_special,
}
use pdai_server_panel.Caddy.Render.Lines.{
  is_plain, one_line, IsBlock, nil-IsBlock, append-IsBlock, plain-IsBlock, line-IsBlock,
  nest-IsBlock, plain-append, plain-depth, plain-one_line,
}

-- A text with none of the characters that a check refuses is plain.
pub dns-plain : (s : Text) → contains_any s dns_special ≡ false → is_plain s ≡ true
unfolding contains_any
dns-plain [] h = refl
dns-plain (c ∷ s) h = ground (arith, dns-plain s)

digits-plain : (f n : ℕ) → is_plain (digits f n) ≡ true
unfolding digits
digits-plain zero n = refl
digits-plain (suc f) n = elim (Bool-cases (ltb n 10)) [
  | inl e ↦ rw e (ground arith)
  | inr e ↦ rw (e, all-append, digits-plain f (n / 10)) (ground arith)
]

pub decimal_text-plain : (n : ℕ) → is_plain (decimal_text n) ≡ true
unfolding decimal_text
decimal_text-plain n = digits-plain (suc n) n

pub or_text-plain :
    (t u : Text) → is_plain t ≡ true → is_plain u ≡ true → is_plain (or_text t u) ≡ true
or_text-plain t u h k = ground arith

pub both-plain : (s t : Text) → is_plain s ≡ true → is_plain t ≡ true → is_plain (s ++ t) ≡ true
both-plain s t h k = rw (all-append, h, k)

pub plain-both-one_line :
    (s t : Text) → is_plain s ≡ true → one_line t ≡ true → one_line (s ++ t) ≡ true
plain-both-one_line s t h k = rw (all-append (λ c. not (c == 10)) s t, plain-one_line s h, k)

-- A line of a name and a value in quotes.
quoted-IsBlock :
    (n v : Text) → is_plain n ≡ true → is_plain v ≡ true → IsBlock (quoted_line n v ∷ [])
quoted-IsBlock n v h k =
    plain-IsBlock (quoted_line n v) (both-plain n _ h (both-plain v (codes "\"") k refl))

pub render_php_host-IsBlock :
    (h : Host)
    → is_plain h.root_path ≡ true
    → is_plain h.php_fastcgi ≡ true
    → IsBlock (render_php_host h)
unfolding render_php_host
render_php_host-IsBlock h r f =
    append-IsBlock (plain-IsBlock (codes "\troot * " ++ h.root_path) (r)) (
      append-IsBlock
        (plain-IsBlock (codes "\tphp_fastcgi " ++ or_text h.php_fastcgi (codes "localhost:9000"))
          (ground (arith, f)))
        (plain-IsBlock (codes "\tfile_server") refl))

pub render_redirect-IsBlock :
    (h : Host) → is_plain h.redirect_url ≡ true → IsBlock (render_redirect h)
unfolding render_redirect brace_depth trim_left is_space brace_step
render_redirect-IsBlock h r =
    line-IsBlock b'r' _ _ refl refl refl
      (λ d.
        plain-append d h.redirect_url _ r
        ∙ elim (Bool-cases (is_302 h.redirect_code)) [ inl e ↦ rw e refl | inr e ↦ rw e refl ])
      (plain-both-one_line h.redirect_url _ r
        (elim (Bool-cases (is_302 h.redirect_code)) [ inl e ↦ rw e refl | inr e ↦ rw e refl ]))

pub render_security_headers-IsBlock : IsBlock render_security_headers
unfolding render_security_headers brace_depth brace_step line_text trim_left trim_space trim_right
    is_space has_prefix
render_security_headers-IsBlock = record { level = λ d. refl; lines = refl }

auth_lines-IsBlock :
    (auths : List BasicAuth)
    → All
        (λ (a : BasicAuth). (is_plain a.username ≡ true) × (is_plain a.password_hash ≡ true))
        auths
    → IsBlock (auth_lines auths)
unfolding auth_lines
auth_lines-IsBlock [] h = nil-IsBlock
auth_lines-IsBlock (a ∷ auths) (h, hs) =
    append-IsBlock
      (plain-IsBlock (codes "\t\t" ++ (a.username ++ (codes " " ++ a.password_hash)))
        (both-plain a.username _ h.0 (h.1)))
      (auth_lines-IsBlock auths hs)

pub render_basic_auth-IsBlock :
    (auths : List BasicAuth)
    → All
        (λ (a : BasicAuth). (is_plain a.username ≡ true) × (is_plain a.password_hash ≡ true))
        auths
    → IsBlock (render_basic_auth auths)
unfolding render_basic_auth brace_depth brace_step line_text trim_left trim_space trim_right
    is_space has_prefix
render_basic_auth-IsBlock auths h =
    nest-IsBlock b'b' _ _ (codes "\t}") refl refl refl (λ d. refl) refl (λ d. refl) refl
      (auth_lines-IsBlock auths h)

pub render_compression-IsBlock : IsBlock render_compression
unfolding render_compression
render_compression-IsBlock = plain-IsBlock (codes "\tencode gzip zstd") refl

pub render_static_host-IsBlock :
    (h : Host)
    → is_plain h.root_path ≡ true
    → is_plain h.index_files ≡ true
    → IsBlock (render_static_host h)
unfolding render_static_host brace_depth brace_step trim_left is_space
render_static_host-IsBlock h r i =
    append-IsBlock (plain-IsBlock (codes "\troot * " ++ h.root_path) r)
      (append-IsBlock (try_lines (null h.index_files)) (serve_lines (is_true h.directory_browse)))
  where
    try_lines :
        (b : Bool) → IsBlock (if b then [] else (codes "\ttry_files {path} " ++ h.index_files) ∷ [])
    try_lines true = nil-IsBlock
    try_lines false =
        line-IsBlock b't' (codes "\ttry_files {path} " ++ h.index_files) _ refl refl refl
          (λ d. plain-depth d h.index_files i) (plain-one_line h.index_files i)

    serve_lines :
        (b : Bool)
        → IsBlock ((if b then codes "\tfile_server browse" else codes "\tfile_server") ∷ [])
    serve_lines true = plain-IsBlock (codes "\tfile_server browse") refl
    serve_lines false = plain-IsBlock (codes "\tfile_server") refl

pub render_cors-IsBlock :
    (h : Host)
    → is_plain h.cors_origins ≡ true
    → is_plain h.cors_methods ≡ true
    → is_plain h.cors_headers ≡ true
    → IsBlock (render_cors h)
unfolding render_cors brace_depth brace_step line_text trim_left trim_space trim_right is_space
    has_prefix
render_cors-IsBlock h o m k =
    let po = or_text-plain h.cors_origins (codes "*") o refl in
    let pm = or_text-plain h.cors_methods (codes "GET, POST, PUT, DELETE, OPTIONS") m refl in
    let pk = or_text-plain h.cors_headers (codes "Content-Type, Authorization") k refl in
    append-IsBlock (plain-IsBlock (codes "\t@cors_preflight method OPTIONS") refl) (
      append-IsBlock
        (nest-IsBlock b'h' (codes "\theader @cors_preflight {") _ (codes "\t}") refl refl refl
          (λ d. refl) refl (λ d. refl) refl
          (append-IsBlock (quoted-IsBlock (codes "\t\tAccess-Control-Allow-Origin") _ refl po) (
            append-IsBlock (quoted-IsBlock (codes "\t\tAccess-Control-Allow-Methods") _ refl pm) (
              append-IsBlock (quoted-IsBlock (codes "\t\tAccess-Control-Allow-Headers") _ refl pk)
                (plain-IsBlock (codes "\t\tAccess-Control-Max-Age \"86400\"") refl)))))
        (append-IsBlock (plain-IsBlock (codes "\trespond @cors_preflight 204") refl)
          (quoted-IsBlock (codes "\theader Access-Control-Allow-Origin") _ refl po)))

error_page_lines-IsBlock :
    (path : Text) (c : ℕ) → is_plain path ≡ true → IsBlock (error_page_lines path c)
unfolding brace_depth brace_step line_text trim_left trim_space trim_right is_space has_prefix
error_page_lines-IsBlock path c h =
    let code = decimal_text c in
    let p : is_plain code ≡ true = decimal_text-plain c in
    append-IsBlock
      (line-IsBlock b'@'
        (codes "\t\t@" ++ (code ++ (codes " expression {err.status_code} == " ++ code))) _ refl refl
        refl (λ d. plain-append d code _ p ∙ plain-depth d code p)
        (plain-both-one_line code _ p (plain-one_line code p)))
      (nest-IsBlock b'h' (codes "\t\thandle @" ++ (code ++ codes " {")) _ (codes "\t\t}") refl refl
        refl (λ d. plain-append d code _ p) (plain-both-one_line code _ p refl) (λ d. refl) refl
        (append-IsBlock (plain-IsBlock (codes "\t\t\troot * " ++ path) h) (
          append-IsBlock
            (plain-IsBlock (codes "\t\t\trewrite * /" ++ (code ++ codes ".html"))
              (both-plain code _ p refl))
            (plain-IsBlock (codes "\t\t\tfile_server") refl))))

pub render_error_pages-IsBlock :
    (path : Text) → is_plain path ≡ true → IsBlock (render_error_pages path)
unfolding render_error_pages brace_depth brace_step line_text trim_left trim_space trim_right
    is_space has_prefix
render_error_pages-IsBlock path h =
    let body = append-IsBlock (error_page_lines-IsBlock path 404 h) (
      append-IsBlock (error_page_lines-IsBlock path 502 h) (error_page_lines-IsBlock path 503 h)) in
    nest-IsBlock b'h' (codes "\thandle_errors {") _ (codes "\t}") refl refl refl (λ d. refl) refl
      (λ d. refl) refl body
