-- ===== src/Caddy/Directives/Trimmed.antt =====
-- The lines of a text, and those of the text without the space around it.
use mathlib.Core.List.{append-nil, append_assoc}
use pdai_server_panel.Common.{
  ℕ, true, false, ◌&&◌, List, [], ◌∷◌, ◌++◌, ◌==◌, ◌≡◌, inl, inr, refl, sym, ap, ◌∙◌, arith,
  Bool-cases, null,
}
use pdai_server_panel.Text.{Text, split, onto_first, trim_space, trim_left, trim_right, is_space}
use pdai_server_panel.Caddy.Directives.{line_text}
use pdai_server_panel.Caddy.Directives.Sanitized.{effective}

abbrev lines_of : Text → List Text
lines_of s = split (λ c. c == 10) s

-- The lines with a text in front of the first.
abbrev behind : Text → List Text → List Text
behind u [] = u ∷ []
behind u (p ∷ ps) = (u ++ p) ∷ ps

trim_right-space :
    (s : Text) (c : ℕ)
    → is_space c ≡ true
    → trim_right is_space (s ++ (c ∷ [])) ≡ trim_right is_space s
unfolding trim_right
trim_right-space [] c h = rw h
trim_right-space (x ∷ s) c h = rw (trim_right-space s c h)

trim_left-space :
    (s : Text) (c : ℕ)
    → is_space c ≡ true
    → trim_right is_space (trim_left is_space (s ++ (c ∷ [])))
      ≡ trim_right is_space (trim_left is_space s)
unfolding trim_left
trim_left-space [] c h = rw h
trim_left-space (x ∷ s) c h = elim (Bool-cases (is_space x)) [
  | inl e ↦ rw e (trim_left-space s c h)
  | inr e ↦ rw e (trim_right-space (x ∷ s) c h)
]

line_text-space : (u : Text) (c : ℕ) → is_space c ≡ true → line_text (u ++ (c ∷ [])) ≡ line_text u
unfolding line_text trim_space
line_text-space u c h = rw (trim_left-space u c h)

behind-onto_first :
    (u : Text) (c : ℕ) (ls : List Text) → behind u (onto_first c ls) ≡ behind (u ++ (c ∷ [])) ls
unfolding onto_first
behind-onto_first u c [] = refl
behind-onto_first u c (p ∷ ps) = ap (λ t. t ∷ ps) (sym (append_assoc u (c ∷ []) p))

behind-split : (s : Text) → behind [] (lines_of s) ≡ lines_of s
unfolding split onto_first
behind-split [] = refl
behind-split (c ∷ s) = elim (Bool-cases (c == 10)) [
  | inl e ↦ rw e refl
  | inr e ↦ rw e (first (lines_of s))
]
  where
    first : (ls : List Text) → behind [] (onto_first c ls) ≡ onto_first c ls
    first [] = refl
    first (p ∷ ps) = refl

module _ (c : ℕ) (s : Text) where
  split-newline : (u : Text) → (c == 10) ≡ true → behind u (lines_of (c ∷ s)) ≡ u ∷ lines_of s
  unfolding split
  split-newline u h = rw (h, append-nil) refl

  split-other :
      (u : Text)
      → (c == 10) ≡ false
      → behind u (lines_of (c ∷ s)) ≡ behind (u ++ (c ∷ [])) (lines_of s)
  unfolding split
  split-other u h = rw h (behind-onto_first u c (lines_of s))

-- A last space stands in no line that Caddy reads.
effective-space :
    (c : ℕ) (u : Text)
    → is_space c ≡ true
    → effective (behind u (lines_of [])) ≡ effective (behind u (lines_of (c ∷ [])))
unfolding split line_text trim_space trim_left trim_right
effective-space c u h = elim (Bool-cases (c == 10)) [
  | inl e ↦ ap (λ t. line_text t ++ []) (append-nil u) ∙ sym (ap effective (split-newline c [] u e))
  | inr e ↦
      ap (λ t. line_text t ++ []) (append-nil u)
      ∙ ap (λ t. t ++ []) (sym (line_text-space u c h))
      ∙ ap (λ t. line_text t ++ []) (sym (append-nil (u ++ (c ∷ []))))
      ∙ sym (ap effective (split-other c [] u e))
]

-- Two texts of the same lines have the same lines behind one more character.
effective-cons :
    (c : ℕ) (r s : Text)
    → ((v : Text) → effective (behind v (lines_of r)) ≡ effective (behind v (lines_of s)))
    → (u : Text) → effective (behind u (lines_of (c ∷ r))) ≡ effective (behind u (lines_of (c ∷ s)))
effective-cons c r s ih u = elim (Bool-cases (c == 10)) [
  | inl e ↦
      ap effective (split-newline c r u e)
      ∙ ap (λ t. line_text u ++ t)
          (sym (ap effective (behind-split r)) ∙ ih [] ∙ ap effective (behind-split s))
      ∙ sym (ap effective (split-newline c s u e))
  | inr e ↦
      ap effective (split-other c r u e)
      ∙ ih (u ++ (c ∷ []))
      ∙ sym (ap effective (split-other c s u e))
]

null-nil : (t : Text) → null t ≡ true → t ≡ []
null-nil [] h = refl
null-nil (x ∷ t) h = absurd (ground arith)

effective-trim_right :
    (s u : Text)
    → effective (behind u (lines_of (trim_right is_space s))) ≡ effective (behind u (lines_of s))
unfolding trim_right
effective-trim_right [] u = refl
effective-trim_right (c ∷ s) u =
    let rest = effective-cons c (trim_right is_space s) s (effective-trim_right s) u in
    elim (Bool-cases (null (trim_right is_space s) && is_space c)) [
      | inl e ↦ rw e (
          effective-space c u (ground arith)
          ∙ ap (λ t. effective (behind u (lines_of (c ∷ t))))
              (sym (null-nil (trim_right is_space s) (ground arith)))
          ∙ rest)
      | inr e ↦ rw e rest
    ]

effective-onto_first :
    (c : ℕ) (ls : List Text) → is_space c ≡ true → effective (onto_first c ls) ≡ effective ls
unfolding onto_first line_text trim_space trim_left trim_right
effective-onto_first c [] h = rw h
effective-onto_first c (p ∷ ps) h = rw h

effective-first :
    (c : ℕ) (s : Text) → is_space c ≡ true → effective (lines_of (c ∷ s)) ≡ effective (lines_of s)
unfolding split line_text trim_space trim_left trim_right
effective-first c s h = elim (Bool-cases (c == 10)) [
  | inl e ↦ rw e refl
  | inr e ↦ rw e (effective-onto_first c (lines_of s) h)
]

effective-trim_left :
    (s : Text) → effective (lines_of (trim_left is_space s)) ≡ effective (lines_of s)
unfolding trim_left
effective-trim_left [] = refl
effective-trim_left (c ∷ s) = elim (Bool-cases (is_space c)) [
  | inl e ↦ rw e (effective-trim_left s ∙ sym (effective-first c s e))
  | inr e ↦ rw e refl
]

-- Trimming a text changes nothing of what Caddy reads of its lines.
pub effective-trim_space :
    (s : Text)
    → effective (split (λ c. c == 10) (trim_space s)) ≡ effective (split (λ c. c == 10) s)
unfolding trim_space
effective-trim_space s =
    let t = trim_left is_space s in
    sym (ap effective (behind-split (trim_right is_space t)))
    ∙ effective-trim_right t []
    ∙ ap effective (behind-split t)
    ∙ effective-trim_left s
