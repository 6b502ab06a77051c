-- ===== src/Caddy/FileName.antt =====
-- internal/caddy/validate.go, `SafeDomainFileName`: the name of a domain's files.
pub mod Laws
use mathlib.Core.List.{map}
use pdai_server_panel.Common.{
  ℕ, Bool, true, false, ◌&&◌, ◌||◌, [], ◌∷◌, ltb, ◌==◌, if◌then◌else◌, null, length, take,
}
use pdai_server_panel.Text.{Text, codes, is_alnum, trim_space, trim_right}

abbrev pub is_safe_char : ℕ → Bool
is_safe_char c = is_alnum c || c == b'.' || c == b'-' || c == b'_'

abbrev pub safe_char : ℕ → ℕ
safe_char c = if is_safe_char c then c else b'_'

abbrev pub or_site : Text → Text
or_site name = if null name then codes "site" else name

-- The name is ASCII, so its bytes are its characters.
unfoldable pub shorten : Text → Text
shorten name =
    if ltb 180 (length name) then or_site (trim_right (λ c. c == b'.') (take 180 name)) else name

unfoldable pub safe_domain_file_name : Text → Text
safe_domain_file_name domain =
    let d = trim_space domain in
    if null d then codes "site" else shorten (or_site (map safe_char d))
