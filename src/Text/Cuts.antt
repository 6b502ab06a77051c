-- ===== src/Text/Cuts.antt =====
-- Taking a text apart at the last occurrence of a character.
use pdai_server_panel.Common.{
  ℕ, true, ◌≡◌, refl, ap, Option, none, some, [], ◌∷◌, ◌++◌, arith, ◌==◌, not, all, sym, Bool-cases,
  inl, inr, ==_iff,
}
use pdai_server_panel.Text.{Text, last_cut, cut_last}

abbrev pub Free : ℕ → Text → Type 0
Free sep s = all (λ c. not (c == sep)) s ≡ true

-- What a cut at the last separator is.
abbrev pub CutLast : ℕ → Text → Option (Text × Text) → Type 0
CutLast sep s none = Free sep s
CutLast sep s (some (a, b)) = (a ++ sep ∷ b ≡ s) × Free sep b

last_cut-CutLast :
    (sep c : ℕ) (s : Text) (o : Option (Text × Text))
    → CutLast sep s o
    → CutLast sep (c ∷ s) (last_cut sep c s o)
unfolding last_cut
last_cut-CutLast sep c s (some (a, b)) h = (ap (λ t. c ∷ t) h.0, h.1)
last_cut-CutLast sep c s none h = elim (Bool-cases (c == sep)) [
  | inl e ↦ rw e (ap (λ d. d ∷ s) (sym ((==_iff c sep).0 e)), h)
  | inr e ↦ rw e (ground arith)
]

pub cut_last-CutLast : (sep : ℕ) (s : Text) → CutLast sep s (cut_last sep s)
unfolding cut_last
cut_last-CutLast sep [] = refl
cut_last-CutLast sep (c ∷ s) = last_cut-CutLast sep c s (cut_last sep s) (cut_last-CutLast sep s)

cut_last-Free : (sep : ℕ) (s : Text) → Free sep s → cut_last sep s ≡ none
unfolding cut_last last_cut
cut_last-Free sep [] h = refl
cut_last-Free sep (c ∷ s) h = rw (cut_last-Free sep s (ground arith)) (ground arith)

-- A text is cut where its last separator stands.
pub cut_last-append :
    (sep : ℕ) (a b : Text) → Free sep b → cut_last sep (a ++ sep ∷ b) ≡ some (a, b)
unfolding cut_last last_cut
cut_last-append sep [] b h = rw (cut_last-Free sep b h) (rw ((==_iff sep sep).1 refl))
cut_last-append sep (c ∷ a) b h = rw (cut_last-append sep a b h)
