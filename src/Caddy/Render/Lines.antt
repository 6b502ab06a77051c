-- ===== src/Caddy/Render/Lines.antt =====
-- Lines of a Caddyfile, and lists of lines that close what they open.
use mathlib.Core.List.{append_assoc, append-nil}
use pdai_server_panel.Common.{
  Option-cases, ℕ, suc, Bool, true, false, not, ◌&&◌, ◌||◌, some, List, [], ◌∷◌, ◌++◌, ◌==◌, ◌≡◌,
  inl, inr, refl, sym, ap, ◌∙◌, arith, all, all-append, Bool-cases, null,
}
use pdai_server_panel.Text.{
  Text, codes, split, onto_first, trim_space, trim_left, trim_right, is_space, has_prefix,
}
use pdai_server_panel.Text.Trims.{trim_right-first}
use pdai_server_panel.Caddy.Directives.{brace_depth, brace_step, line_text}
use pdai_server_panel.Caddy.Directives.Balance.{brace_depth-append, depth-some, depth-none}
use pdai_server_panel.Caddy.Directives.Sanitized.{effective}
use pdai_server_panel.Caddy.Render.Parts.{text_of}

abbrev pub is_plain_char : ℕ → Bool
is_plain_char c = not (c == b'{' || c == b'}' || c == 10)

-- No brace and no newline.
abbrev pub is_plain : Text → Bool
is_plain s = all is_plain_char s

abbrev pub one_line : Text → Bool
one_line s = all (λ c. not (c == 10)) s

pub plain-one_line : (s : Text) → is_plain s ≡ true → one_line s ≡ true
plain-one_line [] h = refl
plain-one_line (c ∷ s) h = ground (arith, plain-one_line s)

step-plain : (c d : ℕ) → (c == b'{' || c == b'}') ≡ false → brace_step d c ≡ some d
unfolding brace_step
step-plain c d h = ground arith

-- The counter passes over a plain text.
pub plain-append :
    (d : ℕ) (s t : Text) → is_plain s ≡ true → brace_depth d (s ++ t) ≡ brace_depth d t
plain-append d [] t h = refl
plain-append d (c ∷ s) t h =
    depth-some c (s ++ t) d d (step-plain c d (ground arith)) ∙ plain-append d s t (ground arith)

pub plain-depth : (d : ℕ) (s : Text) → is_plain s ≡ true → brace_depth d s ≡ some d
unfolding brace_depth
plain-depth d [] h = refl
plain-depth d (c ∷ s) h =
    depth-some c s d d (step-plain c d (ground arith)) ∙ plain-depth d s (ground arith)

trim_left-depth : (d : ℕ) (s : Text) → brace_depth d (trim_left is_space s) ≡ brace_depth d s
unfolding trim_left is_space
trim_left-depth d [] = refl
trim_left-depth d (c ∷ s) = elim (Bool-cases (is_space c)) [
  | inl e ↦ rw e (trim_left-depth d s ∙ sym (depth-some c s d d (step-plain c d (ground arith))))
  | inr e ↦ rw e
]

trim_right-depth : (d : ℕ) (s : Text) → brace_depth d (trim_right is_space s) ≡ brace_depth d s
unfolding trim_right
trim_right-depth d [] = refl
trim_right-depth d (c ∷ s) = elim (Bool-cases (null (trim_right is_space s) && is_space c)) [
  | inl e ↦ rw e (
      nothing d (trim_right is_space s) (ground arith)
      ∙ trim_right-depth d s
      ∙ sym (depth-some c s d d (unfold is_space in step-plain c d (ground arith))))
  | inr e ↦ rw e (elim (Option-cases (brace_step d c)) [
    | inl k ↦ depth-none c (trim_right is_space s) d k ∙ sym (depth-none c s d k)
    | inr (d', k) ↦
        depth-some c (trim_right is_space s) d d' k
        ∙ trim_right-depth d' s
        ∙ sym (depth-some c s d d' k)
  ])
]
  where
    nothing : (n : ℕ) (t : Text) → null t ≡ true → brace_depth n [] ≡ brace_depth n t
    nothing n [] h = refl
    nothing n (x ∷ t) h = absurd (ground arith)

pub trim_space-depth : (d : ℕ) (s : Text) → brace_depth d (trim_space s) ≡ brace_depth d s
unfolding trim_space
trim_space-depth d s = trim_right-depth d (trim_left is_space s) ∙ trim_left-depth d s

-- A line that is no comment counts as it stands.
line_text-depth :
    (d : ℕ) (l : Text)
    → has_prefix (trim_space l) (codes "#") ≡ false
    → brace_depth d (line_text l) ≡ brace_depth d l
unfolding line_text
line_text-depth d l h = elim (Bool-cases (null (trim_space l))) [
  | inl e ↦ rw e (empty (trim_space l) e ∙ trim_space-depth d l)
  | inr e ↦ rw (e, h) (trim_space-depth d l)
]
  where
    empty : (t : Text) → null t ≡ true → brace_depth d [] ≡ brace_depth d t
    empty [] k = refl
    empty (x ∷ t) k = absurd (ground arith)

plain-line_text : (d : ℕ) (l : Text) → is_plain l ≡ true → brace_depth d (line_text l) ≡ some d
unfolding line_text
plain-line_text d l h =
    elim (Bool-cases (null (trim_space l) || has_prefix (trim_space l) (codes "#"))) [
      | inl e ↦ rw e (plain-depth d [] refl)
      | inr e ↦ rw e (trim_space-depth d l ∙ plain-depth d l h)
    ]

begins_with :
    (c : ℕ) (l s : Text)
    → trim_left is_space l ≡ c ∷ s
    → is_space c ≡ false
    → (c == b'#') ≡ false
    → has_prefix (trim_space l) (codes "#") ≡ false
unfolding trim_space has_prefix
begins_with c l s e k h = rw (e, trim_right-first is_space c s k) (ground arith)

-- Lines after which the counter is where it was.
pub record IsBlock (ls : List Text) : Type 0 where
  pub level : (d : ℕ) → brace_depth d (effective ls) ≡ some d
  pub lines : all one_line ls ≡ true

pub nil-IsBlock : IsBlock []
unfolding brace_depth
nil-IsBlock = record { level = λ d. refl; lines = refl }

effective-append : (ks ls : List Text) → effective (ks ++ ls) ≡ effective ks ++ effective ls
effective-append [] ls = refl
effective-append (k ∷ ks) ls =
    ap (λ t. line_text k ++ t) (effective-append ks ls)
    ∙ sym (append_assoc (line_text k) (effective ks) (effective ls))

pub append-IsBlock : {ks ls : List Text} → IsBlock ks → IsBlock ls → IsBlock (ks ++ ls)
append-IsBlock {ks} {ls} a b = record {
  level = λ d.
      rw (effective-append ks ls)
        (brace_depth-append (effective ks) (effective ls) d d (a.level d) ∙ b.level d);
  lines = rw (all-append, a.lines) b.lines;
}

pub plain-IsBlock : (l : Text) → is_plain l ≡ true → IsBlock (l ∷ [])
plain-IsBlock l h = record {
  level = λ d. rw append-nil (plain-line_text d l h);
  lines = rw (plain-one_line l h);
}

-- A line that closes what it opens.
pub line-IsBlock :
    (c : ℕ) (l s : Text)
    → trim_left is_space l ≡ c ∷ s
    → is_space c ≡ false
    → (c == b'#') ≡ false
    → ((d : ℕ) → brace_depth d l ≡ some d)
    → one_line l ≡ true
    → IsBlock (l ∷ [])
line-IsBlock c l s e k h b o = record {
  level = λ d. rw append-nil (line_text-depth d l (begins_with c l s e k h) ∙ b d);
  lines = rw o;
}

-- A line that opens a block, a body, and a line that closes it.
pub nest-IsBlock :
    (c : ℕ) (l s close : Text) {body : List Text}
    → trim_left is_space l ≡ c ∷ s
    → is_space c ≡ false
    → (c == b'#') ≡ false
    → ((d : ℕ) → brace_depth d l ≡ some (suc d))
    → one_line l ≡ true
    → ((d : ℕ) → brace_depth (suc d) (line_text close) ≡ some d)
    → one_line close ≡ true
    → IsBlock body
    → IsBlock ((l ∷ []) ++ (body ++ (close ∷ [])))
nest-IsBlock c l s close {body} e k h opens o closes o' b = record {
  level = λ d.
      brace_depth-append (line_text l) (effective (body ++ (close ∷ []))) d (suc d)
        (line_text-depth d l (begins_with c l s e k h) ∙ opens d)
      ∙ rw (effective-append body (close ∷ [])) (
          brace_depth-append (effective body) (effective (close ∷ [])) (suc d) (suc d)
            (b.level (suc d))
          ∙ rw append-nil (closes d));
  lines = rw (o, all-append one_line body (close ∷ []), b.lines, o');
}

split-one_line :
    (l t : Text)
    → one_line l ≡ true
    → split (λ c. c == 10) (l ++ (10 ∷ t)) ≡ l ∷ split (λ c. c == 10) t
unfolding split onto_first
split-one_line [] t h = refl
split-one_line (c ∷ l) t h = ground (arith, split-one_line l t)

-- The lines of the builder's text are the lines that were written, and an empty one.
pub split-text_of :
    (ls : List Text) → all one_line ls ≡ true → split (λ c. c == 10) (text_of ls) ≡ ls ++ ([] ∷ [])
unfolding text_of split
split-text_of [] h = refl
split-text_of (l ∷ ls) h =
    split-one_line l (text_of ls) (ground arith) ∙ ap (λ t. l ∷ t) (split-text_of ls (ground arith))
