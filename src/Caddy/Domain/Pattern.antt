-- ===== src/Caddy/Domain/Pattern.antt =====
-- The texts that `domainRegex` accepts.
use pdai_server_panel.Common.{
  ℕ, zero, suc, Bool, true, ◌||◌, ◌≡◌, ap, ◌∙◌, [], ◌∷◌, ◌++◌, arith, ◌==◌, all, all-append, inl,
  inr,
}
use pdai_server_panel.Text.{Text, is_alnum, is_digit}
use pdai_server_panel.Regex.{Regex, at_most, chr, seq, lit}
use pdai_server_panel.Regex.Matching.{
  Matches, Within, Within-all, eps-inv, seq-inv, alt-inv, chr-inv,
}
use pdai_server_panel.Caddy.Domain.{label_regex, rest_regex, domain_regex, is_label_char}

-- Letters, digits, `-`, `.` and `:`.
abbrev pub is_tail_char : ℕ → Bool
is_tail_char c = is_label_char c || c == b'.' || c == b':'

Within-at_most : (p : ℕ → Bool) (n : ℕ) (r : Regex) → Within p r → Within p (at_most n r)
Within-at_most p zero r w = tt
Within-at_most p (suc n) r w = (tt, (w, Within-at_most p n r w))

label_regex-Within : Within is_tail_char label_regex
unfolding label_regex
label_regex-Within = (
  λ c h. ground arith,
  (
    tt,
    (Within-at_most is_tail_char 61 (chr is_label_char) (λ c h. ground arith), λ c h. ground arith),
  ),
)

rest_regex-Within : Within is_tail_char rest_regex
unfolding rest_regex
rest_regex-Within = (
  (λ c h. ground arith, label_regex-Within),
  (
    tt,
    (
      λ c h. ground arith,
      (λ c h. ground arith, Within-at_most is_tail_char 4 (chr is_digit) (λ c h. ground arith)),
    ),
  ),
)

-- A text of the pattern: its first character is a letter, a digit or `*`, and no `*` follows.
pub record IsAddress (d : Text) : Type 0 where
  pub first : ℕ
  pub rest : Text
  pub parts : first ∷ rest ≡ d
  pub starts : (is_alnum first || first == b'*') ≡ true
  pub follows : all is_tail_char rest ≡ true

-- A label begins with a letter or a digit.
label-first :
    {s : Text}
    → Matches label_regex s
    → (c : ℕ) × (t : Text) × (c ∷ t ≡ s) × (is_alnum c ≡ true) × (all is_tail_char t ≡ true)
unfolding label_regex
label-first m =
    let (u, t, mc, mt, e) = seq-inv m in
    let (c, e', h) = chr-inv mc in
    (c, t, ap (λ w. w ++ t) e' ∙ e, h, Within-all is_tail_char label_regex-Within.1 mt)

-- So does a text of labels with or without a port.
body-first :
    {s : Text}
    → Matches (seq label_regex rest_regex) s
    → (c : ℕ) × (t : Text) × (c ∷ t ≡ s) × (is_alnum c ≡ true) × (all is_tail_char t ≡ true)
body-first m =
    let (u, v, ml, mr, e) = seq-inv m in
    let (c, t, e', h, k) = label-first ml in
    (
      c,
      t ++ v,
      ap (λ w. w ++ v) e' ∙ e,
      h,
      rw (all-append, k) (Within-all is_tail_char rest_regex-Within mr),
    )

plain-IsAddress :
    {s : Text} (t : Text) → s ≡ [] → Matches (seq label_regex rest_regex) t → IsAddress (s ++ t)
plain-IsAddress t e m =
    let (c, r, p, h, k) = body-first m in
    record { first = c; rest = r; parts = rw e p; starts = rw h; follows = k }

wildcard-IsAddress :
    {s : Text} (t : Text)
    → Matches (seq (lit b'*') (lit b'.')) s
    → Matches (seq label_regex rest_regex) t
    → IsAddress (s ++ t)
wildcard-IsAddress t w m =
    let (c, r, p, h, k) = body-first m in
    let (u, v, mu, mv, e) = seq-inv w in
    let (x, ex, hx) = chr-inv mu in
    let (y, ey, hy) = chr-inv mv in
    record {
      first = x;
      rest = y ∷ c ∷ r;
      parts = rw (← e, ← ex, ← ey, ← p);
      starts = ground arith;
      follows = ground arith;
    }

-- A text that the source's pattern accepts is an address.
pub Matches-IsAddress : {d : Text} → Matches domain_regex d → IsAddress d
unfolding domain_regex
Matches-IsAddress m =
    let (s, t, ms, mt, e) = seq-inv m in
    rw (← e) (elim (alt-inv ms) [
      | inl h ↦ plain-IsAddress t (eps-inv h) mt
      | inr h ↦ wildcard-IsAddress t h mt
    ])
