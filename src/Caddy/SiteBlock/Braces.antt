-- ===== src/Caddy/SiteBlock/Braces.antt =====
-- The brace counter of a site block.
use pdai_server_panel.Common.{Result-cases}
use pdai_server_panel.Common.{
  ℕ, ◌+◌, true, Option, none, some, List, [], ◌∷◌, ◌≡◌, inl, inr, refl, sym, ◌∙◌, arith,
  Option-cases, ok, err,
}
use pdai_server_panel.Text.{Text}
use pdai_server_panel.Caddy.Directives.{brace_depth, brace_step, line_text}
use pdai_server_panel.Caddy.Directives.Balance.{
  Balanced, brace_depth-append, brace_depth_iff, depth-some,
}
use pdai_server_panel.Caddy.Directives.Sanitized.{effective}
use pdai_server_panel.Caddy.SiteBlock.{
  BlockError, Scan, start, scan_char, scan_chars, scan_line, scan_lines, close_brace, scanned,
  scan_text,
}

-- The counter moves as the one of the directives does.
scan_char-depth :
    (s t : Scan) (c : ℕ) → scan_char s c ≡ some t → brace_step s.depth c ≡ some t.depth
unfolding scan_char brace_step close_brace
scan_char-depth s t c h = ground arith

module _ (s : Scan) (c : ℕ) (u : Text) where
  chars-some : (t : Scan) → scan_char s c ≡ some t → scan_chars s (c ∷ u) ≡ scan_chars t u
  unfolding scan_chars
  chars-some t h = rw (h, scan_chars) refl

  chars-none : scan_char s c ≡ none → scan_chars s (c ∷ u) ≡ none
  unfolding scan_chars
  chars-none h = rw (h, scan_chars) refl

scan_chars-depth :
    (s t : Scan) (u : Text) → scan_chars s u ≡ some t → brace_depth s.depth u ≡ some t.depth
unfolding scan_chars brace_depth
scan_chars-depth s t [] h = ground arith
scan_chars-depth s t (c ∷ u) h = elim (Option-cases (scan_char s c)) [
  | inl e ↦ cc (chars-none s c u e)
  | inr (s', e) ↦
      depth-some c u s.depth s'.depth (scan_char-depth s s' c e)
      ∙ scan_chars-depth s' t u (sym (chars-some s c u s' e) ∙ h)
]

scanned-ok : (i : ℕ) (o : Option Scan) {t : Scan} → scanned i o ≡ ok t → o ≡ some t
scanned-ok i none h = cc
scanned-ok i (some s) h = cc

scan_text-depth :
    (i : ℕ) (s t : Scan) (u : Text) → scan_text i s u ≡ ok t → brace_depth s.depth u ≡ some t.depth
unfolding scan_text
scan_text-depth i s t [] h = unfold brace_depth in ground arith
scan_text-depth i s t (c ∷ u) h =
    scan_chars-depth s t (c ∷ u) (scanned-ok i (scan_chars s (c ∷ u)) (ground arith))

scan_text-closed :
    (i : ℕ) (s t : Scan) (u : Text)
    → s.closed_root ≡ true
    → scan_text i s u ≡ ok t
    → (u ≡ []) × (t.closed_root ≡ true)
unfolding scan_text
scan_text-closed i s t [] h k = ground arith
scan_text-closed i s t (c ∷ u) h k = absurd (ground arith)

module _ (i : ℕ) (s : Scan) (line : Text) (lines : List Text) where
  lines-ok :
      (t : Scan)
      → scan_line i s line ≡ ok t
      → scan_lines i s (line ∷ lines) ≡ scan_lines (i + 1) t lines
  unfolding scan_lines
  lines-ok t h = rw (h, scan_lines) refl

  lines-err : (e : BlockError) → scan_line i s line ≡ err e → scan_lines i s (line ∷ lines) ≡ some e
  unfolding scan_lines
  lines-err e h = rw (h, scan_lines) refl

scan_lines-depth :
    (i : ℕ) (s : Scan) (lines : List Text)
    → scan_lines i s lines ≡ none
    → brace_depth s.depth (effective lines) ≡ some 0
unfolding scan_lines scan_line brace_depth
scan_lines-depth i s [] h = ground arith
scan_lines-depth i s (l ∷ ls) h = elim (Result-cases (scan_line i s l)) [
  | inl (t, e) ↦
      brace_depth-append (line_text l) (effective ls) s.depth t.depth
        (scan_text-depth i s t (line_text l) e)
      ∙ scan_lines-depth (i + 1) t ls (sym (lines-ok i s l ls t e) ∙ h)
  | inr (x, e) ↦ cc (lines-err i s l ls x e)
]

-- The lines of an accepted block are balanced.
pub scan_lines-Balanced :
    (lines : List Text) → scan_lines 0 start lines ≡ none → Balanced (effective lines)
scan_lines-Balanced lines h =
    (brace_depth_iff (effective lines)).0 (scan_lines-depth 0 start lines h)

-- Once the root block is closed, the lines that follow are empty or comments.
pub scan_lines-closed :
    (i : ℕ) (s : Scan) (lines : List Text)
    → s.closed_root ≡ true
    → scan_lines i s lines ≡ none
    → effective lines ≡ []
unfolding scan_lines scan_line
scan_lines-closed i s [] h k = refl
scan_lines-closed i s (l ∷ ls) h k = elim (Result-cases (scan_line i s l)) [
  | inl (t, e) ↦
      let (u, v) = scan_text-closed i s t (line_text l) h e in
      rw u (scan_lines-closed (i + 1) t ls v (sym (lines-ok i s l ls t e) ∙ k))
  | inr (x, e) ↦ cc (lines-err i s l ls x e)
]
