-- ===== src/Caddy/Upstream/Addresses.antt =====
-- Which addresses `ExtractSiteAddresses` finds.
use mathlib.Core.List.{map}
use pdai_server_panel.Common.{ℕ, Bool, true, false, List, ◌≡◌, Any}
use pdai_server_panel.Text.{
  Text, codes, trim_space, trim_suffix, has_prefix, has_suffix, to_lower, fields,
}
use pdai_server_panel.Caddy.Domain.{accepted, normalize_domain_address}
use pdai_server_panel.Caddy.Upstream.{comma_to_space}

-- The words of a line before its last brace, with commas as spaces.
abbrev pub words : Text → List Text
words line = fields (map comma_to_space (trim_space (trim_suffix (trim_space line) (codes "{"))))

-- `a` is the lower case of the address that a word is normalised to.
abbrev pub IsNamedBy : (ℕ → ℕ) → Text → Text → Type 0
IsNamedBy wide a raw =
    (exact : Text) × (host : Text) × (has_port : Bool) × (normalize_domain_address wide raw
      ≡ accepted exact host has_port)
    × (a ≡ to_lower wide exact)

-- The line opens a block, is no comment, and has a word for `a`.
pub record IsHeader (wide : ℕ → ℕ) (a line : Text) : Type 0 where
  pub opens : has_suffix (trim_space line) (codes "{") ≡ true
  pub read : has_prefix (trim_space line) (codes "#") ≡ false
  pub named : Any (IsNamedBy wide a) (words line)
