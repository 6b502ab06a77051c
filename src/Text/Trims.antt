-- ===== src/Text/Trims.antt =====
-- Trimming, and prefixes, on texts whose characters are known.
use pdai_server_panel.Common.{
  ℕ, Bool, true, false, ◌≡◌, refl, ap, [], ◌∷◌, arith, not, all, length, ◌≤◌, ==_iff,
}
use pdai_server_panel.Text.{Text, is_space, trim_left, trim_right, trim_space, has_prefix}

-- No character of the text passes the test.
abbrev pub Without : (ℕ → Bool) → Text → Type 0
Without p s = all (λ c. not (p c)) s ≡ true

trim_left-Without : (p : ℕ → Bool) (s : Text) → Without p s → trim_left p s ≡ s
unfolding trim_left
trim_left-Without p [] h = refl
trim_left-Without p (c ∷ s) h = ground arith

trim_right-Without : (p : ℕ → Bool) (s : Text) → Without p s → trim_right p s ≡ s
unfolding trim_right
trim_right-Without p [] h = refl
trim_right-Without p (c ∷ s) h = ground (arith, trim_right-Without p s)

-- A text with no space in it is left as it is.
pub trim_space-Without : (s : Text) → Without is_space s → trim_space s ≡ s
unfolding trim_space
trim_space-Without s h = rw (trim_left-Without is_space s h, trim_right-Without is_space s h)

-- What holds of a text's characters holds of a prefix's.
pub has_prefix-all :
    (p : ℕ → Bool) (s t : Text) → all p s ≡ true → has_prefix s t ≡ true → all p t ≡ true
unfolding has_prefix
has_prefix-all p s [] h k = refl
has_prefix-all p [] (d ∷ t) h k = cc
has_prefix-all p (c ∷ s) (d ∷ t) h k =
    let e : c ≡ d = (==_iff c d).0 (ground arith) in ground (arith, has_prefix-all p s t, ap p e)

pub all-trim_right : (p q : ℕ → Bool) (s : Text) → all q s ≡ true → all q (trim_right p s) ≡ true
unfolding trim_right
all-trim_right p q [] h = refl
all-trim_right p q (c ∷ s) h = ground (arith, all-trim_right p q s)

pub length-trim_right : (p : ℕ → Bool) (s : Text) → length (trim_right p s) ≤ length s
unfolding trim_right
length-trim_right p [] = omega arith
length-trim_right p (c ∷ s) = ground (arith, length-trim_right p s)

-- A text whose first character is kept is not trimmed away.
pub trim_right-first :
    (p : ℕ → Bool) (c : ℕ) (s : Text) → p c ≡ false → trim_right p (c ∷ s) ≡ c ∷ trim_right p s
unfolding trim_right
trim_right-first p c s h = ground arith
