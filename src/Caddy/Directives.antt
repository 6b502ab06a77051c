-- ===== src/Caddy/Directives.antt =====
-- internal/caddy/validate.go, `SanitizeCustomDirectives` and `ValidateCaddyValue`: text that is put
-- inside a site block.
pub mod Balance
pub mod Refused
pub mod Sanitized
pub mod Trimmed
use pdai_server_panel.Common.{
  ℕ, zero, suc, ◌+◌, Bool, true, false, ◌||◌, Option, none, some, List, [], ◌∷◌, ◌++◌, ◌==◌,
  if◌then◌else◌, null,
}
use pdai_server_panel.Text.{Text, codes, split, trim_space, has_prefix, contains_any}

pub data DirectiveError : Type 0 where
  closes_parent : ℕ → DirectiveError
  unbalanced : ℕ → DirectiveError

-- `braceDepth--`, with the return that follows where it falls below 0
abbrev pub pred_depth : ℕ → Option ℕ
pred_depth zero = none
pred_depth (suc d) = some d

-- One round of the loop over the characters of a line.
unfoldable pub brace_step : ℕ → ℕ → Option ℕ
brace_step d c = if c == b'{' then some (suc d) else if c == b'}' then pred_depth d else some d

-- The loop over the characters; `none` is the early return.
unfoldable pub brace_depth : ℕ → Text → Option ℕ
brace_depth d [] = some d
brace_depth d (c ∷ s) = elim (brace_step d c) [ none ↦ none | some d' ↦ brace_depth d' s ]

-- Empty lines and comments are passed over.
unfoldable pub line_text : Text → Text
line_text line =
    let trimmed = trim_space line in
    if null trimmed || has_prefix trimmed (codes "#") then [] else trimmed

-- The loop over the lines; `i` is the index of the next line.
unfoldable pub sanitize_lines : ℕ → ℕ → List Text → Option DirectiveError
sanitize_lines i d [] = if d == 0 then none else some (unbalanced d)
sanitize_lines i d (line ∷ lines) = elim (brace_depth d (line_text line)) [
  | none ↦ some (closes_parent (i + 1))
  | some d' ↦ sanitize_lines (i + 1) d' lines
]

-- `none` is the accepted case.
unfoldable pub sanitize_custom_directives : Text → Option DirectiveError
sanitize_custom_directives directives =
    if null directives then none else sanitize_lines 0 0 (split (λ c. c == 10) directives)

-- "\n\r{}\"\\"
abbrev pub value_special : Text
value_special = 10 ∷ 13 ∷ b'{' ∷ b'}' ∷ 34 ∷ 92 ∷ []

-- true is the accepted case
unfoldable pub validate_caddy_value : Text → Bool
validate_caddy_value value =
    if null value then true else if contains_any value value_special then false else true
