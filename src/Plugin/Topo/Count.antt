-- ===== src/Plugin/Topo/Count.antt =====
-- How often a name stands in a list; two lists with the same counts have the same length.
use pdai_server_panel.Plugin.Topo.{Entry}
use native.Mathlib.Nat.{ℕ_set}
use mathlib.Core.List.{Perm, Permᴰ}
use mathlib.Core.Logic.{∥∥₁_elim}
use text.Mathlib.TextPositions.{eq_refl}
use pdai_server_panel.Common.{
  ℕ, ◌+◌, ◌≤◌, ◌<◌, String, List, [], ◌∷◌, ◌++◌, ◌≡◌, refl, ap, ◌∙◌, if◌then◌else◌, length, arith,
  ◌=ˢ◌, eq_iff,
}

-- 1 for the name itself, 0 for another
abbrev pub same : String → String → ℕ
same x y = if y =ˢ x then 1 else 0

unfoldable pub count : String → List String → ℕ
count x [] = 0
count x (y ∷ ys) = same x y + count x ys

pub count-append : (x : String) (xs ys : List String) → count x (xs ++ ys) ≡ count x xs + count x ys
unfolding count
count-append x [] ys = omega arith
count-append x (y ∷ xs) ys = omega (arith, count-append x xs ys)

pub same_self : (x : String) → same x x ≡ 1
same_self x = rw (eq_refl x)

remove : String → List String → List String
remove x [] = []
remove x (y ∷ ys) = if y =ˢ x then ys else y ∷ remove x ys

count-remove :
    (x y : String) (ys : List String)
    → 0 < count x ys
    → count y (remove x ys) + same y x ≡ count y ys
unfolding count remove
count-remove x y [] h = absurd (omega arith)
count-remove x y (z ∷ ys) h =
    ground (arith, count-remove x y ys, eq_iff z x, eq_iff x y, eq_iff z y)

length-remove :
    (x : String) (ys : List String) → 0 < count x ys → length (remove x ys) + 1 ≡ length ys
unfolding count remove
length-remove x [] h = absurd (omega arith)
length-remove x (z ∷ ys) h = ground (arith, length-remove x ys)

-- What is left of two lists when the head of the first is taken out of both.
module _ (x : String) (xs ys : List String) (h : (y : String) → count y (x ∷ xs) ≤ count y ys) where
  count-head : 0 < count x ys
  unfolding count
  count-head = omega (arith, h x, same_self x)

  count-rest : (y : String) → count y xs ≤ count y (remove x ys)
  unfolding count
  count-rest y = omega (arith, h y, count-remove x y ys count-head)

-- With no more of each name there is no more in all.
pub length-le_of_count :
    (xs ys : List String) → ((x : String) → count x xs ≤ count x ys) → length xs ≤ length ys
length-le_of_count [] ys h = omega arith
length-le_of_count (x ∷ xs) ys h = omega (
  arith,
  length-le_of_count xs (remove x ys) (count-rest x xs ys h),
  length-remove x ys (count-head x xs ys h),
)

-- If moreover the lengths agree, the counts do.
pub count-eq_of_length :
    (xs ys : List String)
    → ((x : String) → count x xs ≤ count x ys)
    → length xs ≡ length ys
    → (x : String) → count x xs ≡ count x ys
unfolding count
count-eq_of_length [] [] h e x = refl
count-eq_of_length [] (y ∷ ys) h e x = absurd (omega arith)
count-eq_of_length (z ∷ xs) ys h e x = omega (
  arith,
  count-remove z x ys (count-head z xs ys h),
  count-eq_of_length xs (remove z ys) (count-rest z xs ys h)
      (omega (arith, length-remove z ys (count-head z xs ys h))) x,
)

pub length-eq_of_count :
    (xs ys : List String) → ((x : String) → count x xs ≡ count x ys) → length xs ≡ length ys
length-eq_of_count xs ys h = omega (
  arith,
  length-le_of_count xs ys (λ x. omega (arith, h x)),
  length-le_of_count ys xs (λ x. omega (arith, h x)),
)

-- The names of the entries of a queue.
abbrev pub ids : List Entry → List String
ids [] = []
ids (e ∷ es) = e.id ∷ ids es

Permᴰ-count : (x : String) {q r : List Entry} → Permᴰ q r → count x (ids q) ≡ count x (ids r)
unfolding count
Permᴰ-count x Permᴰ.nil = refl
Permᴰ-count x (Permᴰ.cons e p) = omega (arith, ap (λ (y : Entry). same x y.id) e, Permᴰ-count x p)
Permᴰ-count x (Permᴰ.swap e f) =
    omega (arith, ap (λ (y : Entry). same x y.id) e, ap (λ (y : Entry). same x y.id) f)
Permᴰ-count x (Permᴰ.trans p q) = Permᴰ-count x p ∙ Permᴰ-count x q

pub Perm-count : (x : String) {q r : List Entry} → Perm q r → count x (ids q) ≡ count x (ids r)
Perm-count x p = ∥∥₁_elim p (ℕ_set _ _) (Permᴰ-count x)
