-- ===== src/Text.antt =====
-- The part of Go's `strings` that the panel uses, over texts given as their code points.
-- A Go string here is valid UTF-8; `byte_len` is its `len`.
pub mod Cuts
pub mod Equal
pub mod Trims
use Prim.Native.Char.{code}
use mathlib.Core.List.{reverse}
use pdai_server_panel.Common.{
  ℕ, ◌-◌, ◌+◌, ◌*◌, String, Bool, true, false, ◌&&◌, ◌||◌, Option, none, some, List, [], ◌∷◌, ltb,
  leb, ◌==◌, if◌then◌else◌, length, take, drop, any, null,
}

abbrev pub Text : Type 0
Text = List ℕ

-- A literal of the source.
abbrev pub codes : String → Text
codes String.[] = []
codes (String.◌∷◌ letter rest) = code letter ∷ codes rest

-- Bytes of one code point in UTF-8.
abbrev pub rune_len : ℕ → ℕ
rune_len c = if ltb c 0x80 then 1 else if ltb c 0x800 then 2 else if ltb c 0x10000 then 3 else 4

-- len(s)
unfoldable pub byte_len : Text → ℕ
byte_len [] = 0
byte_len (c ∷ s) = rune_len c + byte_len s

-- s == t
unfoldable pub text_eq : Text → Text → Bool
text_eq [] [] = true
text_eq [] (d ∷ t) = false
text_eq (c ∷ s) [] = false
text_eq (c ∷ s) (d ∷ t) = c == d && text_eq s t

abbrev pub is_digit : ℕ → Bool
is_digit c = leb b'0' c && leb c b'9'

abbrev pub is_lower : ℕ → Bool
is_lower c = leb b'a' c && leb c b'z'

abbrev pub is_upper : ℕ → Bool
is_upper c = leb b'A' c && leb c b'Z'

abbrev pub is_alnum : ℕ → Bool
is_alnum c = is_lower c || is_upper c || is_digit c

-- unicode.IsSpace
unfoldable pub is_space : ℕ → Bool
is_space c =
    (leb 9 c && leb c 13)
    || c == 32
    || c == 0x85
    || c == 0xa0
    || c == 0x1680
    || (leb 0x2000 c && leb c 0x200a)
    || c == 0x2028
    || c == 0x2029
    || c == 0x202f
    || c == 0x205f
    || c == 0x3000

-- strings.TrimLeft, with the test for the characters to drop
unfoldable pub trim_left : (ℕ → Bool) → Text → Text
trim_left p [] = []
trim_left p (c ∷ s) = let rest = trim_left p s in if p c then rest else c ∷ s

-- strings.TrimRight
unfoldable pub trim_right : (ℕ → Bool) → Text → Text
trim_right p [] = []
trim_right p (c ∷ s) = let rest = trim_right p s in if null rest && p c then [] else c ∷ rest

-- strings.TrimSpace
unfoldable pub trim_space : Text → Text
unfolding trim_left trim_right is_space
trim_space s = trim_right is_space (trim_left is_space s)

-- strings.HasPrefix
unfoldable pub has_prefix : Text → Text → Bool
has_prefix s [] = true
has_prefix [] (d ∷ p) = false
has_prefix (c ∷ s) (d ∷ p) = c == d && has_prefix s p

-- strings.TrimPrefix
unfoldable pub trim_prefix : Text → Text → Text
unfolding has_prefix
trim_prefix s p = if has_prefix s p then drop (length p) s else s

-- strings.HasSuffix
unfoldable pub has_suffix : Text → Text → Bool
unfolding has_prefix
has_suffix s p = has_prefix (reverse s) (reverse p)

-- strings.TrimSuffix
unfoldable pub trim_suffix : Text → Text → Text
unfolding has_suffix
trim_suffix s p = if has_suffix s p then take (length s - length p) s else s

-- strings.ContainsAny
unfoldable pub contains_any : Text → Text → Bool
contains_any s chars = any (λ c. any (λ d. c == d) chars) s

-- strings.ToLower; `wide` is the lower case of a code point beyond ASCII, by Unicode's tables.
unfoldable pub to_lower : (ℕ → ℕ) → Text → Text
to_lower wide [] = []
to_lower wide (c ∷ s) =
    (if is_upper c then c + 32 else if ltb c 0x80 then c else wide c) ∷ to_lower wide s

-- Puts a character in front of the first piece.
unfoldable pub onto_first : ℕ → List Text → List Text
onto_first c [] = (c ∷ []) ∷ []
onto_first c (p ∷ ps) = (c ∷ p) ∷ ps

-- strings.Split at one character, given by its test
unfoldable pub split : (ℕ → Bool) → Text → List Text
unfolding onto_first
split p [] = [] ∷ []
split p (c ∷ s) = let rest = split p s in if p c then [] ∷ rest else onto_first c rest

unfoldable pub non_empty : List Text → List Text
non_empty [] = []
non_empty (t ∷ ts) = let rest = non_empty ts in if null t then rest else t ∷ rest

-- strings.Fields
unfoldable pub fields : Text → List Text
unfolding split non_empty is_space
fields s = non_empty (split is_space s)

unfoldable pub last_cut : ℕ → ℕ → Text → Option (Text × Text) → Option (Text × Text)
last_cut sep c s (some (a, b)) = some (c ∷ a, b)
last_cut sep c s none = if c == sep then some ([], s) else none

-- The text before and after the last occurrence of a character, by strings.LastIndex.
unfoldable pub cut_last : ℕ → Text → Option (Text × Text)
unfolding last_cut
cut_last sep [] = none
cut_last sep (c ∷ s) = last_cut sep c s (cut_last sep s)

unfoldable pub first_cut : ℕ → Option (Text × Text) → Option (Text × Text)
first_cut c (some (a, b)) = some (c ∷ a, b)
first_cut c none = none

-- The text before and after the first occurrence, by strings.IndexByte.
unfoldable pub cut_first : ℕ → Text → Option (Text × Text)
unfolding first_cut
cut_first sep [] = none
cut_first sep (c ∷ s) =
    let rest = first_cut c (cut_first sep s) in if c == sep then some ([], s) else rest

-- The number that a text of decimal digits denotes.
unfoldable pub decimal : ℕ → Text → ℕ
decimal acc [] = acc
decimal acc (c ∷ s) = decimal (acc * 10 + (c - b'0')) s
