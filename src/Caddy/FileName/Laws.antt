-- ===== src/Caddy/FileName/Laws.antt =====
-- `SafeDomainFileName`: the shape of the names, and names of different domains.
use pdai_server_panel.Common.{cons_inj}
use mathlib.Core.List.{map}
use pdai_server_panel.Common.{
  ℕ, suc, true, false, ◌||◌, [], ◌∷◌, ltb, ◌==◌, if◌then◌else◌, null, length, take, all, ◌≡◌, ◌≢◌,
  ◌≤◌, refl, sym, ap, ◌∙◌, arith, Bool-cases, inl, inr, all-take, length-take-le,
}
use pdai_server_panel.Text.{Text, codes, is_alnum, trim_space, trim_right}
use pdai_server_panel.Text.Trims.{
  trim_space-Without, all-trim_right, length-trim_right, trim_right-first,
}
use pdai_server_panel.Caddy.Domain.Pattern.{IsAddress, Matches-IsAddress, is_tail_char}
use pdai_server_panel.Caddy.Domain.Accepted.{IsDomain}
use pdai_server_panel.Caddy.Domain.Host.{IsDomain-chars, address-Without}
use pdai_server_panel.Caddy.FileName.{
  is_safe_char, safe_char, or_site, shorten, safe_domain_file_name,
}

-- A path segment: not empty, of letters, digits, `.`, `-` and `_`, and at most 180 characters.
pub record IsFileName (s : Text) : Type 0 where
  pub named : null s ≡ false
  pub safe : all is_safe_char s ≡ true
  pub short : length s ≤ 180

all-safe_char : (s : Text) → all is_safe_char (map safe_char s) ≡ true
all-safe_char [] = refl
all-safe_char (c ∷ s) = ground (arith, all-safe_char s)

or_site-IsFileName :
    (s : Text) → all is_safe_char s ≡ true → length s ≤ 180 → IsFileName (or_site s)
or_site-IsFileName [] h k = record { named = refl; safe = refl; short = omega arith }
or_site-IsFileName (c ∷ s) h k = record { named = refl; safe = h; short = k }

shorten-IsFileName :
    (s : Text) → null s ≡ false → all is_safe_char s ≡ true → IsFileName (shorten s)
unfolding shorten
shorten-IsFileName s n h = elim (Bool-cases (ltb 180 (length s))) [
  | inl e ↦
      let t = trim_right (λ c. c == b'.') (take 180 s) in
      rw e (
        or_site-IsFileName t (all-trim_right _ is_safe_char _ (all-take is_safe_char 180 s h))
          (omega (arith, length-trim_right (λ c. c == b'.') (take 180 s), length-take-le 180 s)))
  | inr e ↦ rw e (record { named = n; safe = h; short = ground arith })
]

-- Whatever the domain, its file name is not empty, is at most 180 characters long, and has only
-- letters, digits, dots, hyphens and underscores: it is one segment of a path.
pub safe_domain_file_name-IsFileName : (d : Text) → IsFileName (safe_domain_file_name d)
unfolding safe_domain_file_name
safe_domain_file_name-IsFileName d = go (trim_space d)
  where
    go :
        (s : Text)
        → IsFileName (if null s then codes "site" else shorten (or_site (map safe_char s)))
    go [] = record { named = refl; safe = refl; short = omega arith }
    go (c ∷ s) = shorten-IsFileName (map safe_char (c ∷ s)) refl (all-safe_char (c ∷ s))

-- A valid domain is its own trimmed text.
IsDomain-trim : {d : Text} → IsDomain d → trim_space d ≡ d
IsDomain-trim {d} v = trim_space-Without d (address-Without d (IsDomain-chars v))

name_of_address :
    {d : Text} (v : IsDomain d) (c : ℕ) (s : Text)
    → c ∷ s ≡ d
    → safe_domain_file_name d ≡ shorten (safe_char c ∷ map safe_char s)
unfolding safe_domain_file_name
name_of_address v c s e = rw (IsDomain-trim v, ← e)

shorten-first : (c : ℕ) (s : Text) → (c == b'.') ≡ false → (t : Text) × (shorten (c ∷ s) ≡ c ∷ t)
unfolding shorten
shorten-first c s h = elim (Bool-cases (ltb 180 (length (c ∷ s)))) [
  | inl e ↦ (
    trim_right (λ x. x == b'.') (take 179 s),
    rw e (rw (trim_right-first (λ x. x == b'.') c (take 179 s) h) refl),
  )
  | inr e ↦ (s, rw e refl)
]

-- The file name of a valid domain does not begin with a dot: it is no hidden file, and neither of
-- the segments `.` and `..`.
pub safe_domain_file_name-first :
    (d : Text) → IsDomain d → (c : ℕ) × (t : Text) × (safe_domain_file_name d ≡ c ∷ t) × (c ≢ b'.')
safe_domain_file_name-first d v = go (Matches-IsAddress v.matches)
  where
    go : IsAddress d → (c : ℕ) × (t : Text) × (safe_domain_file_name d ≡ c ∷ t) × (c ≢ b'.')
    go a =
        let c : ℕ = safe_char a.first in
        let (t, e) = shorten-first c (map safe_char a.rest) (ground (arith, a.starts)) in
        (c, t, name_of_address v a.first a.rest a.parts ∙ e, ground (arith, a.starts))

first_inj :
    (b c : ℕ)
    → (is_alnum b || b == b'*') ≡ true
    → (is_alnum c || c == b'*') ≡ true
    → safe_char b ≡ safe_char c
    → b ≡ c
first_inj b c h k e = ground arith

tail_inj :
    (b c : ℕ) → is_tail_char b ≡ true → is_tail_char c ≡ true → safe_char b ≡ safe_char c → b ≡ c
tail_inj b c h k e = ground arith

map_inj :
    (s t : Text)
    → all is_tail_char s ≡ true
    → all is_tail_char t ≡ true
    → map safe_char s ≡ map safe_char t
    → s ≡ t
map_inj [] [] h k e = refl
map_inj [] (c ∷ t) h k e = cc
map_inj (b ∷ s) [] h k e = cc
map_inj (b ∷ s) (c ∷ t) h k e =
    let i : (safe_char b ≡ safe_char c) × (map safe_char s ≡ map safe_char t) = cons_inj e in
    let p : b ≡ c = tail_inj b c (ground arith) (ground arith) i.0 in
    let q : s ≡ t = map_inj s t (ground arith) (ground arith) i.1 in cc

length-map : (s : Text) → length (map safe_char s) ≡ length s
length-map [] = refl
length-map (c ∷ s) = ap suc (length-map s)

shorten-short : (s : Text) → length s ≤ 180 → shorten s ≡ s
unfolding shorten
shorten-short s h = ground arith

short_name :
    {d : Text} (v : IsDomain d) (a : IsAddress d)
    → length d ≤ 180
    → safe_domain_file_name d ≡ safe_char a.first ∷ map safe_char a.rest
short_name {d} v a h =
    let n : length (a.first ∷ a.rest) ≡ length d = ap length a.parts in
    name_of_address v a.first a.rest a.parts
    ∙ shorten-short (safe_char a.first ∷ map safe_char a.rest) (omega (arith, length-map a.rest))

name_inj :
    {d e : Text} (v : IsDomain d) (w : IsDomain e) (a : IsAddress d) (b : IsAddress e)
    → length d ≤ 180
    → length e ≤ 180
    → safe_domain_file_name d ≡ safe_domain_file_name e
    → d ≡ e
name_inj v w a b h k p =
    let i : (safe_char a.first ≡ safe_char b.first)
        × (map safe_char a.rest ≡ map safe_char b.rest) =
      cons_inj (sym (short_name v a h) ∙ p ∙ short_name w b k) in
    let first : a.first ≡ b.first = first_inj a.first b.first a.starts b.starts i.0 in
    let rest : a.rest ≡ b.rest = map_inj a.rest b.rest a.follows b.follows i.1 in
    cc (a.parts, b.parts, first, rest)

-- Two valid domains of at most 180 characters with one file name are one domain.
pub safe_domain_file_name-injective :
    (d e : Text)
    → IsDomain d
    → IsDomain e
    → length d ≤ 180
    → length e ≤ 180
    → safe_domain_file_name d ≡ safe_domain_file_name e
    → d ≡ e
safe_domain_file_name-injective d e v w =
    name_inj v w (Matches-IsAddress v.matches) (Matches-IsAddress w.matches)
