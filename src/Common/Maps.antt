-- ===== src/Common/Maps.antt =====
-- Go maps with string keys, as association lists. The order of the entries stands for the order in
-- which a `range` over the map happens to visit them.
use mathlib.Core.Path.{◌≡◌}
use mathlib.Core.Bool.{Bool}
use mathlib.Core.Option.{Option, none, some}
use mathlib.Core.List.{List, [], ◌∷◌}
use Prim.Native.String.{String}
use native.Mathlib.Omega.{arith}
use text.Mathlib.Text.{◌==◌ as str_eq}
use text.Mathlib.TextEquality.{eq_iff}
use pdai_server_panel.Common.Tests.{if◌then◌else◌}

-- s == t on strings
infix 50 ◌=ˢ◌
abbrev pub ◌=ˢ◌ : String → String → Bool
◌=ˢ◌ = str_eq

abbrev pub Table {ℓ} : Type ℓ → Type ℓ
Table V = List (String × V)

module _ {ℓ} {V : Type ℓ} where
  -- m[k]
  unfoldable pub lookup : String → Table V → Option V
  lookup x [] = none
  lookup x ((y, w) ∷ rows) = if str_eq y x then some w else lookup x rows

  -- m[k] = v
  unfoldable pub insert : String → V → Table V → Table V
  insert x new [] = (x, new) ∷ []
  insert x new ((y, w) ∷ rows) = if str_eq y x then (x, new) ∷ rows else (y, w) ∷ insert x new rows

  -- delete(m, k)
  unfoldable pub delete : String → Table V → Table V
  delete x [] = []
  delete x ((y, w) ∷ rows) = let rest = delete x rows in if str_eq y x then rest else (y, w) ∷ rest

  pub lookup-insert :
      (x z : String) (new : V) (rows : Table V)
      → lookup z (insert x new rows) ≡ (if str_eq x z then some new else lookup z rows)
  unfolding insert lookup
  lookup-insert x z new [] = ground arith
  lookup-insert x z new ((y, w) ∷ rows) =
      ground (lookup-insert x z new rows, eq_iff y z, eq_iff y x, eq_iff x z, arith)

  pub lookup-delete :
      (x z : String) (rows : Table V)
      → lookup z (delete x rows) ≡ (if str_eq x z then none else lookup z rows)
  unfolding delete lookup
  lookup-delete x z [] = ground arith
  lookup-delete x z ((y, w) ∷ rows) =
      ground (lookup-delete x z rows, eq_iff y z, eq_iff y x, eq_iff x z, arith)
