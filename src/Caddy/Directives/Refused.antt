-- ===== src/Caddy/Directives/Refused.antt =====
-- Which line `SanitizeCustomDirectives` names in a refusal.
use pdai_server_panel.Common.{
  ℕ, zero, suc, ◌+◌, ◌-◌, ◌≤◌, ◌<◌, none, some, List, [], ◌∷◌, ◌==◌, if◌then◌else◌, take, ◌≡◌, inl,
  inr, sym, ◌∙◌, arith,
}
use pdai_server_panel.Text.{Text}
use pdai_server_panel.Caddy.Directives.{closes_parent, brace_depth, sanitize_lines}
use pdai_server_panel.Caddy.Directives.Balance.{
  brace_cases, step-open, step-close, step-other, depth-some, depth-none,
}
use pdai_server_panel.Caddy.Directives.Sanitized.{effective, sanitize_lines-closes_parent}

-- How often a character stands in a text.
unfoldable pub count : ℕ → Text → ℕ
count c [] = 0
count c (x ∷ s) = (if x == c then 1 else 0) + count c s

closing-le :
    (s : Text) (d e m : ℕ)
    → ((d' : ℕ) → brace_depth d' s ≡ some e → count b'}' (take m s) ≤ d' + count b'{' (take m s))
    → brace_depth d (b'}' ∷ s) ≡ some e
    → count b'}' (take (suc m) (b'}' ∷ s)) ≤ d + count b'{' (take (suc m) (b'}' ∷ s))
unfolding count
closing-le s zero e m ih h =
    absurd (ground (arith, sym (depth-none b'}' s zero (step-close zero)) ∙ h))
closing-le s (suc d) e m ih h =
    ground (arith, ih d (sym (depth-some b'}' s (suc d) d (step-close (suc d))) ∙ h))

-- Where the counter does not fail from depth d, no prefix closes more than d blocks beyond those that it opens.
depth-le :
    (s : Text) (d e m : ℕ)
    → brace_depth d s ≡ some e
    → count b'}' (take m s) ≤ d + count b'{' (take m s)
unfolding count brace_depth
depth-le [] d e zero h = omega arith
depth-le [] d e (suc m) h = omega arith
depth-le (c ∷ s) d e zero h = omega arith
depth-le (c ∷ s) d e (suc m) h = elim (brace_cases c) [
  | inl o ↦
      let k = depth-le s (suc d) e m (sym (depth-some c s d (suc d) (rw o (step-open d))) ∙ h) in
      ground (arith, k, o)
  | inr (inl o) ↦ rw o (closing-le s d e m (λ d' k. depth-le s d' e m k) (rw o at h))
  | inr (inr o) ↦
      let k = depth-le s d e m (sym (depth-some c s d d (step-other c d o)) ∙ h) in
      ground (arith, k, o)
]

closing-lt :
    (s : Text) (d : ℕ)
    → ((d' : ℕ)
        → brace_depth d' s ≡ none
        → (m : ℕ) × (d' + count b'{' (take m s) < count b'}' (take m s)))
    → brace_depth d (b'}' ∷ s) ≡ none
    → (m : ℕ) × (d + count b'{' (take m (b'}' ∷ s)) < count b'}' (take m (b'}' ∷ s)))
unfolding count
closing-lt s zero ih h = (1, ground arith)
closing-lt s (suc d) ih h =
    let (m, k) = ih d (sym (depth-some b'}' s (suc d) d (step-close (suc d))) ∙ h) in
    (suc m, ground (arith, k))

-- Where it fails, some prefix does.
depth-lt :
    (s : Text) (d : ℕ)
    → brace_depth d s ≡ none
    → (m : ℕ) × (d + count b'{' (take m s) < count b'}' (take m s))
unfolding count brace_depth
depth-lt [] d h = absurd (ground arith)
depth-lt (c ∷ s) d h = elim (brace_cases c) [
  | inl o ↦
      let (m, k) = depth-lt s (suc d) (sym (depth-some c s d (suc d) (rw o (step-open d))) ∙ h) in
      (suc m, ground (arith, k, o))
  | inr (inl o) ↦ rw o (closing-lt s d (depth-lt s) (rw o at h))
  | inr (inr o) ↦
      let (m, k) = depth-lt s d (sym (depth-some c s d d (step-other c d o)) ∙ h) in
      (suc m, ground (arith, k, o))
]

-- A refusal of directives that names line n for closing a block: comments left out, no prefix of the
-- lines before it has more closing than opening braces, and some prefix that ends in line n has.
pub sanitize_lines-names :
    (lines : List Text) {n : ℕ}
    → sanitize_lines 0 0 lines ≡ some (closes_parent n)
    → ((m : ℕ)
        → count b'}' (take m (effective (take (n - 1) lines)))
          ≤ count b'{' (take m (effective (take (n - 1) lines))))
      × (m : ℕ) × (count b'{' (take m (effective (take n lines)))
          < count b'}' (take m (effective (take n lines))))
sanitize_lines-names lines {n} h =
    let (k, e, same, before, at) = sanitize_lines-closes_parent 0 0 lines h in
    let last : n - 1 ≡ k = omega (arith, same) in
    let this : n ≡ suc k = omega (arith, same) in
    let (m, below) = depth-lt (effective (take (suc k) lines)) 0 at in
    rw (last, this)
      (
        λ j. omega (arith, depth-le (effective (take k lines)) 0 e j before),
        m,
        omega (arith, below),
      )
