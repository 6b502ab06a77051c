-- ===== src/Caddy/Render/Digits.antt =====
-- The digits of a number.
use pdai_server_panel.Common.{
  ℕ, zero, suc, ◌+◌, ◌*◌, ◌-◌, ◌<◌, ◌/◌, [], ◌∷◌, ◌++◌, ◌≡◌, refl, arith, ltb, Bool-cases, inl, inr,
}
use pdai_server_panel.Text.{Text, decimal}
use pdai_server_panel.Caddy.Render.Parts.{decimal_text, digits}

decimal-append :
    (s : Text) (acc c : ℕ) → decimal acc (s ++ c ∷ []) ≡ decimal acc s * 10 + (c - b'0')
unfolding decimal
decimal-append [] acc c = refl
decimal-append (x ∷ s) acc c = decimal-append s (acc * 10 + (x - b'0')) c

decimal-digits : (f n : ℕ) → n < f → decimal 0 (digits f n) ≡ n
unfolding decimal digits
decimal-digits zero n h = absurd (omega (arith, h))
decimal-digits (suc f) n h = elim (Bool-cases (ltb n 10)) [
  | inl e ↦ rw e (ground arith)
  | inr e ↦
      let k = decimal-digits f (n / 10) (ground (arith, h, e)) in
      rw (e, decimal-append, k) (ground arith)
]

-- The digits of a number denote it again: their fuel is enough.
decimal-decimal_text : (n : ℕ) → decimal 0 (decimal_text n) ≡ n
unfolding decimal_text
decimal-decimal_text n = decimal-digits (suc n) n (omega arith)
