-- ===== src/Regex/Matching.antt =====
-- The derivative matcher and the language of a pattern.
use pdai_server_panel.Common.{cons_inj}
use mathlib.Core.Path.{subst}
use pdai_server_panel.Common.{
  ℕ, Bool, true, ◌≡◌, refl, ap, sym, ◌∙◌, ◌↔◌, ◌⊎◌, inl, inr, [], ◌∷◌, ◌++◌, arith, Bool-cases, all,
  all-append,
}
use pdai_server_panel.Text.{Text}
use pdai_server_panel.Regex.{Regex, empty, eps, chr, seq, alt, star, nullable, deriv, match_string}

-- The language of a pattern.
pub data Matches : Regex → Text → Type 0 where
  in_eps : Matches eps []
  in_chr : {p : ℕ → Bool} {c : ℕ} → p c ≡ true → Matches (chr p) (c ∷ [])
  in_seq :
      {a b : Regex} {s t u : Text} → Matches a s → Matches b t → s ++ t ≡ u → Matches (seq a b) u
  in_left : {a b : Regex} {s : Text} → Matches a s → Matches (alt a b) s
  in_right : {a b : Regex} {s : Text} → Matches b s → Matches (alt a b) s
  in_stop : {a : Regex} → Matches (star a) []
  in_more :
      {a : Regex} {s t u : Text}
      → Matches a s
      → Matches (star a) t
      → s ++ t ≡ u
      → Matches (star a) u

nullable-Matches : (r : Regex) → nullable r ≡ true → Matches r []
unfolding nullable
nullable-Matches empty h = cc
nullable-Matches eps h = in_eps
nullable-Matches (chr p) h = cc
nullable-Matches (seq a b) h =
    in_seq (nullable-Matches a (ground arith)) (nullable-Matches b (ground arith)) refl
nullable-Matches (alt a b) h = elim (Bool-cases (nullable a)) [
  | inl e ↦ in_left (nullable-Matches a e)
  | inr e ↦ in_right (nullable-Matches b (ground arith))
]
nullable-Matches (star a) h = in_stop

append-eq-nil : (s t : Text) → s ++ t ≡ [] → (s ≡ []) × (t ≡ [])
append-eq-nil [] t h = (refl, h)
append-eq-nil (c ∷ s) t h = cc

Matches-nullable : {r : Regex} {s : Text} → Matches r s → s ≡ [] → nullable r ≡ true
unfolding nullable
Matches-nullable in_eps h = refl
Matches-nullable (in_chr e) h = cc
Matches-nullable (in_seq {s = s} {t = t} ma mb e) h =
    let p : (s ≡ []) × (t ≡ []) = append-eq-nil s t (e ∙ h) in
    ground (arith, Matches-nullable ma p.0, Matches-nullable mb p.1)
Matches-nullable (in_left m) h = ground (arith, Matches-nullable m h)
Matches-nullable (in_right m) h = ground (arith, Matches-nullable m h)
Matches-nullable in_stop h = refl
Matches-nullable (in_more ma mb e) h = refl

empty_absurd : {s : Text} → Matches empty s → ⊥
empty_absurd m = elim m [ ]

pub chr-inv : {p : ℕ → Bool} {s : Text} → Matches (chr p) s → (c : ℕ) × (c ∷ [] ≡ s) × (p c ≡ true)
chr-inv (in_chr {c = c} h) = (c, refl, h)

pub eps-inv : {s : Text} → Matches eps s → s ≡ []
eps-inv in_eps = refl

pub seq-inv :
    {a b : Regex} {u : Text}
    → Matches (seq a b) u
    → (s : Text) × (t : Text) × Matches a s × Matches b t × (s ++ t ≡ u)
seq-inv (in_seq {s = s} {t = t} ma mb e) = (s, t, ma, mb, e)

pub alt-inv : {a b : Regex} {s : Text} → Matches (alt a b) s → Matches a s ⊎ Matches b s
alt-inv (in_left m) = inl m
alt-inv (in_right m) = inr m

-- The two shapes of the derivative of a sequence.
deriv-seq :
    (c : ℕ) (a b : Regex) {s : Text}
    → Matches (deriv c (seq a b)) s
    → Matches (seq (deriv c a) b) s ⊎ ((nullable a ≡ true) × Matches (deriv c b) s)
unfolding deriv
deriv-seq c a b m = elim (Bool-cases (nullable a)) [
  | inl e ↦ elim (alt-inv (rw e at m)) [ inl h ↦ inl h | inr h ↦ inr (e, h) ]
  | inr e ↦ inl (rw e at m)
]

deriv-seq_left :
    (c : ℕ) (a b : Regex) {s : Text} → Matches (seq (deriv c a) b) s → Matches (deriv c (seq a b)) s
unfolding deriv
deriv-seq_left c a b m = elim (Bool-cases (nullable a)) [
  | inl e ↦ rw e (in_left m)
  | inr e ↦ rw e m
]

deriv_sound : (r : Regex) (c : ℕ) (s : Text) → Matches (deriv c r) s → Matches r (c ∷ s)
unfolding deriv
deriv_sound empty c s m = absurd (empty_absurd m)
deriv_sound eps c s m = absurd (empty_absurd m)
deriv_sound (chr p) c s m = elim (Bool-cases (p c)) [
  | inl e ↦ let m' : Matches eps s = rw e at m in rw (eps-inv m') (in_chr e)
  | inr e ↦ absurd (empty_absurd (rw e at m))
]
deriv_sound (seq a b) c s m = elim (deriv-seq c a b m) [
  | inl h ↦
      let (u, t, ma, mb, e) = seq-inv h in in_seq (deriv_sound a c u ma) mb (ap (λ w. c ∷ w) e)
  | inr (e, h) ↦ in_seq (nullable-Matches a e) (deriv_sound b c s h) refl
]
deriv_sound (alt a b) c s m = elim (alt-inv m) [
  | inl h ↦ in_left (deriv_sound a c s h)
  | inr h ↦ in_right (deriv_sound b c s h)
]
deriv_sound (star a) c s m =
    let (u, t, ma, mb, e) = seq-inv m in in_more (deriv_sound a c u ma) mb (ap (λ w. c ∷ w) e)

deriv-chr : (p : ℕ → Bool) (c : ℕ) → p c ≡ true → Matches (deriv c (chr p)) []
unfolding deriv
deriv-chr p c h = rw h in_eps

deriv_complete :
    {r : Regex} {u : Text} (c : ℕ) (s : Text) → Matches r u → u ≡ c ∷ s → Matches (deriv c r) s
unfolding deriv
deriv_complete c s in_eps e = cc
deriv_complete c s (in_chr {p = p} {c = d} h) e =
    let i : (d ≡ c) × ([] ≡ s) = cons_inj e in
    subst (λ w. Matches (deriv c (chr p)) w) i.1 (deriv-chr p c (ap p (sym i.0) ∙ h))
deriv_complete c s (in_seq {a = a} {b = b} {s = []} ma mb h) e =
    rw (Matches-nullable ma refl) (in_right (deriv_complete c s mb (h ∙ e)))
deriv_complete c s (in_seq {a = a} {b = b} {s = d ∷ v} {t = t} ma mb h) e =
    let i : (d ≡ c) × (v ++ t ≡ s) = cons_inj (h ∙ e) in
    deriv-seq_left c a b (in_seq (deriv_complete c v ma (ap (λ w. w ∷ v) i.0)) mb i.1)
deriv_complete c s (in_left m) e = in_left (deriv_complete c s m e)
deriv_complete c s (in_right m) e = in_right (deriv_complete c s m e)
deriv_complete c s in_stop e = cc
deriv_complete c s (in_more {s = []} ma mb h) e = deriv_complete c s mb (h ∙ e)
deriv_complete c s (in_more {s = d ∷ v} {t = t} ma mb h) e =
    let i : (d ≡ c) × (v ++ t ≡ s) = cons_inj (h ∙ e) in
    in_seq (deriv_complete c v ma (ap (λ w. w ∷ v) i.0)) mb i.1

-- The matcher accepts exactly the texts of the pattern's language.
pub match_string_iff : (r : Regex) (s : Text) → (match_string r s ≡ true) ↔ Matches r s
unfolding match_string
match_string_iff r [] = (nullable-Matches r, λ m. Matches-nullable m refl)
match_string_iff r (c ∷ s) = (
  λ h. deriv_sound r c s ((match_string_iff (deriv c r) s).0 h),
  λ m. (match_string_iff (deriv c r) s).1 (deriv_complete c s m refl),
)

-- Every character class of the pattern lies within `p`.
abbrev pub Within : (ℕ → Bool) → Regex → Type 0
Within p empty = Unit
Within p eps = Unit
Within p (chr q) = (c : ℕ) → q c ≡ true → p c ≡ true
Within p (seq a b) = Within p a × Within p b
Within p (alt a b) = Within p a × Within p b
Within p (star a) = Within p a

pub Within-all : {r : Regex} {s : Text} (p : ℕ → Bool) → Within p r → Matches r s → all p s ≡ true
Within-all p w in_eps = refl
Within-all p w (in_chr {c = c} h) = ground (arith, w c h)
Within-all p w (in_seq {s = s} {t = t} ma mb e) =
    rw (← e, all-append) (ground (arith, Within-all p w.0 ma, Within-all p w.1 mb))
Within-all p w (in_left m) = Within-all p w.0 m
Within-all p w (in_right m) = Within-all p w.1 m
Within-all p w in_stop = refl
Within-all p w (in_more {s = s} {t = t} ma mb e) =
    rw (← e, all-append) (ground (arith, Within-all p w ma, Within-all p w mb))
