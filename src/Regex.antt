-- ===== src/Regex.antt =====
-- Regular expressions over code points, matched by derivatives: the source's anchored patterns
-- (`^…$`) for `regexp.MustCompile` are written as values of this type.
pub mod Matching
use pdai_server_panel.Common.{
  ℕ, zero, suc, Bool, true, false, ◌&&◌, ◌||◌, [], ◌∷◌, ◌==◌, if◌then◌else◌,
}
use pdai_server_panel.Text.{Text}

pub data Regex : Type 0 where
  empty eps : Regex
  chr : (ℕ → Bool) → Regex
  seq alt : Regex → Regex → Regex
  star : Regex → Regex

-- c, as a pattern
abbrev pub lit : ℕ → Regex
lit d = chr (λ c. c == d)

-- r?
abbrev pub opt : Regex → Regex
opt r = alt eps r

-- r{0,n}
abbrev pub at_most : ℕ → Regex → Regex
at_most zero r = eps
at_most (suc n) r = opt (seq r (at_most n r))

unfoldable pub nullable : Regex → Bool
nullable empty = false
nullable eps = true
nullable (chr p) = false
nullable (seq a b) = nullable a && nullable b
nullable (alt a b) = nullable a || nullable b
nullable (star a) = true

-- What may follow the character `c`.
unfoldable pub deriv : ℕ → Regex → Regex
unfolding nullable
deriv c empty = empty
deriv c eps = empty
deriv c (chr p) = if p c then eps else empty
deriv c (seq a b) =
    let da = deriv c a in let db = deriv c b in if nullable a then alt (seq da b) db else seq da b
deriv c (alt a b) = alt (deriv c a) (deriv c b)
deriv c (star a) = seq (deriv c a) (star a)

-- regexp.MatchString, for an anchored pattern
unfoldable pub match_string : Regex → Text → Bool
unfolding nullable deriv
match_string r [] = nullable r
match_string r (c ∷ s) = match_string (deriv c r) s
