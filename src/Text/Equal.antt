-- ===== src/Text/Equal.antt =====
-- The comparison of texts.
use pdai_server_panel.Common.{true, [], ◌∷◌, ◌≡◌, ◌↔◌, refl, arith, cons_inj}
use pdai_server_panel.Text.{Text, text_eq}

-- A text equals itself, and only itself.
pub text_eq_iff : (s t : Text) → (text_eq s t ≡ true) ↔ (s ≡ t)
unfolding text_eq
text_eq_iff [] [] = (λ h. refl, λ e. refl)
text_eq_iff [] (d ∷ t) = (λ h. absurd (ground arith), λ e. cc)
text_eq_iff (c ∷ s) [] = (λ h. absurd (ground arith), λ e. cc)
text_eq_iff (c ∷ s) (d ∷ t) = (
  λ h. let e : c ≡ d = ground arith in let f : s ≡ t = (text_eq_iff s t).0 (ground arith) in cc,
  λ e. ground (arith, (text_eq_iff s t).1, cons_inj e),
)
