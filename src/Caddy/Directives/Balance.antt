-- ===== src/Caddy/Directives/Balance.antt =====
-- Balanced braces, and the depth counter that decides them.
use mathlib.Core.List.{append_assoc}
use pdai_server_panel.Common.{
  ℕ, zero, suc, false, ◌||◌, none, some, [], ◌∷◌, ◌++◌, ◌==◌, ◌≡◌, ◌↔◌, ◌⊎◌, inl, inr, refl, sym,
  ap, ◌∙◌, arith, Option-cases,
}
use pdai_server_panel.Text.{Text}
use pdai_server_panel.Caddy.Directives.{pred_depth, brace_step, brace_depth}

-- Each opening brace is closed, in order; other characters may stand anywhere.
pub data Balanced : Text → Type 0 where
  done : Balanced []
  skip : {c : ℕ} {s : Text} → (c == b'{' || c == b'}') ≡ false → Balanced s → Balanced (c ∷ s)
  nest : {s t u : Text} → Balanced s → Balanced t → b'{' ∷ s ++ b'}' ∷ t ≡ u → Balanced u

-- A text that closes `d` open blocks.
data Closes : ℕ → Text → Type 0 where
  level : {s : Text} → Balanced s → Closes zero s
  close : {d : ℕ} {s t u : Text} → Balanced s → Closes d t → s ++ b'}' ∷ t ≡ u → Closes (suc d) u

Closes-skip :
    {d : ℕ} {s : Text} (c : ℕ) → (c == b'{' || c == b'}') ≡ false → Closes d s → Closes d (c ∷ s)
Closes-skip c h (level b) = level (skip h b)
Closes-skip c h (close b k e) = close (skip h b) k (ap (λ t. c ∷ t) e)

Closes-nest : {d : ℕ} {s t : Text} → Balanced s → Closes d t → Closes d (b'{' ∷ s ++ b'}' ∷ t)
Closes-nest b (level b') = level (nest b b' refl)
Closes-nest {s = s} b (close {s = s'} {t = t'} b' k e) =
    close (nest b b' refl) k (rw (← e, append_assoc) refl)

Closes-open : {d : ℕ} {s : Text} → Closes (suc d) s → Closes d (b'{' ∷ s)
Closes-open (close b k e) = rw (← e) (Closes-nest b k)

pub brace_cases : (c : ℕ) → (c ≡ b'{') ⊎ (c ≡ b'}') ⊎ ((c == b'{' || c == b'}') ≡ false)
brace_cases c = ground arith

pub step-open : (d : ℕ) → brace_step d b'{' ≡ some (suc d)
unfolding brace_step
step-open d = refl

pub step-close : (d : ℕ) → brace_step d b'}' ≡ pred_depth d
unfolding brace_step
step-close d = refl

pub step-other : (c d : ℕ) → (c == b'{' || c == b'}') ≡ false → brace_step d c ≡ some d
unfolding brace_step
step-other c d h = ground arith

module _ (c : ℕ) (s : Text) (d : ℕ) where
  pub depth-some : (e : ℕ) → brace_step d c ≡ some e → brace_depth d (c ∷ s) ≡ brace_depth e s
  unfolding brace_depth
  depth-some e h = rw (h, brace_depth) refl

  pub depth-none : brace_step d c ≡ none → brace_depth d (c ∷ s) ≡ none
  unfolding brace_depth
  depth-none h = rw (h, brace_depth) refl

closing-Closes :
    (s : Text) (d : ℕ)
    → ((e : ℕ) → brace_depth e s ≡ some 0 → Closes e s)
    → brace_depth d (b'}' ∷ s) ≡ some 0
    → Closes d (b'}' ∷ s)
closing-Closes s zero ih h = cc (depth-none b'}' s 0 (step-close 0))
closing-Closes s (suc d) ih h =
    close done (ih d (sym (depth-some b'}' s (suc d) d (step-close (suc d))) ∙ h)) refl

brace_depth-Closes : (s : Text) (d : ℕ) → brace_depth d s ≡ some 0 → Closes d s
unfolding brace_depth
brace_depth-Closes [] zero h = level done
brace_depth-Closes [] (suc d) h = absurd (ground arith)
brace_depth-Closes (c ∷ s) d h = elim (brace_cases c) [
  | inl e ↦
      let k : brace_depth d (b'{' ∷ s) ≡ some 0 = rw e at h in
      rw e (
        Closes-open
          (brace_depth-Closes s (suc d) (sym (depth-some b'{' s d (suc d) (step-open d)) ∙ k)))
  | inr (inl e) ↦ rw e (closing-Closes s d (brace_depth-Closes s) (rw e at h))
  | inr (inr e) ↦
      Closes-skip c e (brace_depth-Closes s d (sym (depth-some c s d d (step-other c d e)) ∙ h))
]

-- The counter runs through a text's parts in turn.
pub brace_depth-append :
    (s t : Text) (d e : ℕ) → brace_depth d s ≡ some e → brace_depth d (s ++ t) ≡ brace_depth e t
unfolding brace_depth
brace_depth-append [] t d e h = ap (λ x. brace_depth x t) (ground arith)
brace_depth-append (c ∷ s) t d e h = elim (Option-cases (brace_step d c)) [
  | inl k ↦ cc (depth-none c s d k)
  | inr (d', k) ↦
      depth-some c (s ++ t) d d' k ∙ brace_depth-append s t d' e (sym (depth-some c s d d' k) ∙ h)
]

pub brace_depth-append_none :
    (s t : Text) (d : ℕ) → brace_depth d s ≡ none → brace_depth d (s ++ t) ≡ none
unfolding brace_depth
brace_depth-append_none [] t d h = cc
brace_depth-append_none (c ∷ s) t d h = elim (Option-cases (brace_step d c)) [
  | inl k ↦ depth-none c (s ++ t) d k
  | inr (d', k) ↦
      depth-some c (s ++ t) d d' k
      ∙ brace_depth-append_none s t d' (sym (depth-some c s d d' k) ∙ h)
]

pub Balanced-brace_depth : {s : Text} (d : ℕ) → Balanced s → brace_depth d s ≡ some d
unfolding brace_depth
Balanced-brace_depth d done = refl
Balanced-brace_depth d (skip {c = c} {s = s} h b) =
    depth-some c s d d (step-other c d h) ∙ Balanced-brace_depth d b
Balanced-brace_depth d (nest {s = s} {t = t} b b' e) = rw (← e) (
    depth-some b'{' (s ++ b'}' ∷ t) d (suc d) (step-open d)
    ∙ brace_depth-append s (b'}' ∷ t) (suc d) (suc d) (Balanced-brace_depth (suc d) b)
    ∙ depth-some b'}' t (suc d) d (step-close (suc d))
    ∙ Balanced-brace_depth d b')

level-inv : {d : ℕ} {s : Text} → Closes d s → d ≡ 0 → Balanced s
level-inv (level b) h = b
level-inv (close b k e) h = absurd (omega arith)

-- The counter that starts at 0 is back at 0, and was never below, exactly on balanced texts.
pub brace_depth_iff : (s : Text) → (brace_depth 0 s ≡ some 0) ↔ Balanced s
brace_depth_iff s = (λ h. level-inv (brace_depth-Closes s 0 h) refl, Balanced-brace_depth 0)
