-- ===== src/Caddy/Directives/Sanitized.antt =====
-- `SanitizeCustomDirectives` and balanced braces.
use mathlib.Core.List.{append-nil}
use pdai_server_panel.Common.{
  ℕ, suc, ◌+◌, none, some, List, [], ◌∷◌, ◌++◌, ◌==◌, take, ◌≡◌, ◌↔◌, inl, inr, refl, sym, ◌∙◌,
  arith, Option-cases,
}
use pdai_server_panel.Text.{Text, split, trim_space}
use pdai_server_panel.Caddy.Directives.{
  closes_parent, brace_depth, line_text, sanitize_lines, sanitize_custom_directives,
}
use pdai_server_panel.Caddy.Directives.Balance.{
  Balanced, done, brace_depth-append, brace_depth-append_none, brace_depth_iff,
}

-- What Caddy reads of the lines: all but comments.
abbrev pub effective : List Text → Text
effective [] = []
effective (line ∷ lines) = line_text line ++ effective lines

module _ (i d : ℕ) (line : Text) (lines : List Text) where
  sanitize-some :
      (e : ℕ)
      → brace_depth d (line_text line) ≡ some e
      → sanitize_lines i d (line ∷ lines) ≡ sanitize_lines (i + 1) e lines
  unfolding sanitize_lines
  sanitize-some e h = rw (h, sanitize_lines) refl

  sanitize-none :
      brace_depth d (line_text line) ≡ none
      → sanitize_lines i d (line ∷ lines) ≡ some (closes_parent (i + 1))
  unfolding sanitize_lines
  sanitize-none h = rw (h, sanitize_lines) refl

sanitize_lines-none :
    (i d : ℕ) (lines : List Text)
    → sanitize_lines i d lines ≡ none
    → brace_depth d (effective lines) ≡ some 0
unfolding sanitize_lines brace_depth
sanitize_lines-none i d [] h = ground arith
sanitize_lines-none i d (l ∷ ls) h = elim (Option-cases (brace_depth d (line_text l))) [
  | inl k ↦ cc (sanitize-none i d l ls k)
  | inr (e, k) ↦
      brace_depth-append (line_text l) (effective ls) d e k
      ∙ sanitize_lines-none (i + 1) e ls (sym (sanitize-some i d l ls e k) ∙ h)
]

none-sanitize_lines :
    (i d : ℕ) (lines : List Text)
    → brace_depth d (effective lines) ≡ some 0
    → sanitize_lines i d lines ≡ none
unfolding sanitize_lines brace_depth
none-sanitize_lines i d [] h = ground arith
none-sanitize_lines i d (l ∷ ls) h = elim (Option-cases (brace_depth d (line_text l))) [
  | inl k ↦ cc (brace_depth-append_none (line_text l) (effective ls) d k)
  | inr (e, k) ↦
      sanitize-some i d l ls e k
      ∙ none-sanitize_lines (i + 1) e ls
          (sym (brace_depth-append (line_text l) (effective ls) d e k) ∙ h)
]

-- Directives are accepted exactly when the braces of their lines, comments left out, are balanced.
pub sanitize_custom_directives_iff :
    (s : Text)
    → (sanitize_custom_directives s ≡ none) ↔ Balanced (effective (split (λ c. c == 10) s))
unfolding sanitize_custom_directives split line_text trim_space
sanitize_custom_directives_iff [] = (λ h. done, λ b. refl)
sanitize_custom_directives_iff (c ∷ s) =
    let lines = split (λ x. x == 10) (c ∷ s) in
    (
      λ h. (brace_depth_iff (effective lines)).0 (sanitize_lines-none 0 0 lines h),
      λ b. none-sanitize_lines 0 0 lines ((brace_depth_iff (effective lines)).1 b),
    )

-- A refusal that names line n of the lines scanned from number i + 1 and depth d: the lines before it close no block that they did not open, and
-- line n does.
pub sanitize_lines-closes_parent :
    (i d : ℕ) (lines : List Text) {n : ℕ}
    → sanitize_lines i d lines ≡ some (closes_parent n)
    → (k : ℕ) × (e : ℕ) × (n ≡ i + k + 1)
      × (brace_depth d (effective (take k lines)) ≡ some e)
      × (brace_depth d (effective (take (suc k) lines)) ≡ none)
unfolding sanitize_lines brace_depth
sanitize_lines-closes_parent i d [] h = absurd (ground arith)
sanitize_lines-closes_parent i d (l ∷ ls) {n} h =
    elim (Option-cases (brace_depth d (line_text l))) [
      | inl k ↦
          let q : some (closes_parent (i + 1)) ≡ some (closes_parent n) =
            sym (sanitize-none i d l ls k) ∙ h in
          (0, d, ground arith, refl, rw append-nil k)
      | inr (e, k) ↦
          let (m, f, p, q, r) =
            sanitize_lines-closes_parent (i + 1) e ls (sym (sanitize-some i d l ls e k) ∙ h) in
          (
            suc m,
            f,
            omega arith,
            brace_depth-append (line_text l) (effective (take m ls)) d e k ∙ q,
            brace_depth-append (line_text l) (effective (take (suc m) ls)) d e k ∙ r,
          )
    ]
