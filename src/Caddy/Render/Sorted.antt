-- ===== src/Caddy/Render/Sorted.antt =====
-- The parts of a host's block that are sorted first.
use mathlib.Core.List.{map}
use pdai_server_panel.Common.{
  ℕ, Bool, true, false, not, Option, none, some, List, [], ◌∷◌, ◌++◌, ◌==◌, ◌≡◌, refl,
  if◌then◌else◌, null, ℤ, All, All-In, In-All, In, any, ltb, length,
}
use pdai_server_panel.Text.{
  Text, codes, text_eq, trim_left, trim_space, trim_right, is_space, has_prefix,
}
use pdai_server_panel.Model.{Host, Upstream, Route, CustomHeader, AccessRule}
use pdai_server_panel.Caddy.Directives.{brace_depth, brace_step, line_text}
use pdai_server_panel.Caddy.Render.Parts.{join, decimal_text}
use pdai_server_panel.Caddy.Render.{
  is_public_url, render_reverse_proxy, find_upstream, matcher_name, route_proxy, route_upstream,
  route_lines, render_routes, rule_lines, all_rule_lines, render_access_rules, header_lines,
  all_header_lines, render_response_headers, render_proxy_host,
}
use pdai_server_panel.Caddy.Render.Lines.{
  is_plain, IsBlock, nil-IsBlock, append-IsBlock, plain-IsBlock, line-IsBlock, nest-IsBlock,
  plain-append,
}
use pdai_server_panel.Caddy.Render.Blocks.{both-plain, plain-both-one_line, decimal_text-plain}

-- A sort puts nothing into the list.
abbrev pub Keeps : ((A : Type 0) → (A → ℤ) → List A → List A) → Type 1
Keeps sort = (A : Type 0) (key : A → ℤ) (xs : List A) (x : A) → In x (sort A key xs) → In x xs

pub join-plain :
    (ts : List Text) → All (λ t. is_plain t ≡ true) ts → is_plain (join (codes " ") ts) ≡ true
unfolding join
join-plain [] h = refl
join-plain (t ∷ []) (h, hs) = h
join-plain (t ∷ u ∷ us) (h, hs) = both-plain t _ h (join-plain (u ∷ us) hs)

addresses-plain :
    (us : List Upstream)
    → All (λ (u : Upstream). is_plain u.address ≡ true) us
    → All (λ t. is_plain t ≡ true) (map (λ (u : Upstream). u.address) us)
addresses-plain [] h = tt
addresses-plain (u ∷ us) (h, hs) = (h, addresses-plain us hs)

module _ (sort : (A : Type 0) → (A → ℤ) → List A → List A) (keeps : Keeps sort) where
  pub sort-All :
      {A : Type 0} (P : A → Type 0) (key : A → ℤ) (xs : List A) → All P xs → All P (sort A key xs)
  sort-All {A} P key xs h = In-All P (sort A key xs) (λ x i. All-In P xs x h (keeps A key xs x i))

  render_reverse_proxy-IsBlock :
      (us : List Upstream)
      → All (λ (u : Upstream). is_plain u.address ≡ true) us
      → IsBlock (render_reverse_proxy us)
  unfolding render_reverse_proxy brace_depth brace_step line_text trim_left trim_space trim_right
      is_space has_prefix
  render_reverse_proxy-IsBlock us h =
      let addrs = join (codes " ") (map (λ (u : Upstream). u.address) us) in
      let p : is_plain addrs ≡ true = join-plain _ (addresses-plain us h) in
      nest-IsBlock b'r' (codes "\treverse_proxy " ++ (addrs ++ codes " {")) _ (codes "\t}") refl
        refl refl (λ d. plain-append d addrs _ p) (plain-both-one_line addrs _ p refl) (λ d. refl)
        refl
        (append-IsBlock (policy (ltb 1 (length us))) (
          append-IsBlock (upstream_host (any (is_public_url) us)) (
            line-IsBlock b'h' (codes "\t\theader_up X-Real-IP {remote_host}") _ refl refl refl
              (λ d. refl) refl)))
    where
      policy : (b : Bool) → IsBlock (if b then codes "\t\tlb_policy round_robin" ∷ [] else [])
      policy true = plain-IsBlock (codes "\t\tlb_policy round_robin") refl
      policy false = nil-IsBlock

      upstream_host :
          (b : Bool)
          → IsBlock (if b then codes "\t\theader_up Host {upstream_hostport}" ∷ [] else [])
      upstream_host true =
          line-IsBlock b'h' (codes "\t\theader_up Host {upstream_hostport}") _ refl refl refl
            (λ d. refl) refl
      upstream_host false = nil-IsBlock

  abbrev IfUpstream : Option Upstream → Type 0
  IfUpstream none = Unit
  IfUpstream (some u) = is_plain u.address ≡ true

  find_upstream-plain :
      (id : ℕ) (us : List Upstream)
      → All (λ (u : Upstream). is_plain u.address ≡ true) us
      → IfUpstream (find_upstream id us)
  unfolding find_upstream
  find_upstream-plain id [] h = tt
  find_upstream-plain id (u ∷ us) (h, hs) =
      go (find_upstream id us) (u.id == id) (find_upstream-plain id us hs)
    where
      go :
          (o : Option Upstream) (b : Bool)
          → IfUpstream o
          → IfUpstream (elim o [ some v ↦ some v | none ↦ if b then some u else none ])
      go (some v) b k = k
      go none true k = h
      go none false k = tt

  route_proxy-IsBlock : (r : Route) (o : Option Upstream) → IfUpstream o → IsBlock (route_proxy r o)
  unfolding route_proxy
  route_proxy-IsBlock r none h = nil-IsBlock
  route_proxy-IsBlock r (some u) h =
      plain-IsBlock _ (both-plain (decimal_text r.id) _ (decimal_text-plain r.id) h)

  route_lines-IsBlock :
      (us : List Upstream) (rs : List Route)
      → All (λ (u : Upstream). is_plain u.address ≡ true) us
      → All (λ (r : Route). is_plain r.path ≡ true) rs
      → IsBlock (route_lines us rs)
  unfolding route_lines
  route_lines-IsBlock us [] h k = nil-IsBlock
  route_lines-IsBlock us (r ∷ rs) h (k, ks) =
      append-IsBlock
        (plain-IsBlock (codes "\t@" ++ (matcher_name r ++ (codes " path " ++ r.path)))
          (both-plain (decimal_text r.id) _ (decimal_text-plain r.id) k))
        (append-IsBlock (route_proxy-IsBlock r (route_upstream us r.upstream_id) (to r.upstream_id))
          (route_lines-IsBlock us rs h ks))
    where
      to : (o : Option ℕ) → IfUpstream (route_upstream us o)
      to none = tt
      to (some id) = find_upstream-plain id us h

  rule_lines-IsBlock : (r : AccessRule) → is_plain r.ip_range ≡ true → IsBlock (rule_lines r)
  rule_lines-IsBlock r h =
      go (text_eq r.rule_type (codes "allow")) (text_eq r.rule_type (codes "deny"))
    where
      go :
          (a b : Bool)
          → IsBlock (
              if a
              then (codes "\t@blocked not remote_ip " ++ r.ip_range) ∷ codes "\tabort @blocked" ∷ []
              else if b
              then (codes "\t@denied remote_ip " ++ r.ip_range) ∷ codes "\tabort @denied" ∷ []
              else [])
      go true b =
          append-IsBlock (plain-IsBlock (codes "\t@blocked not remote_ip " ++ r.ip_range) h)
            (plain-IsBlock (codes "\tabort @blocked") refl)
      go false true =
          append-IsBlock (plain-IsBlock (codes "\t@denied remote_ip " ++ r.ip_range) h)
            (plain-IsBlock (codes "\tabort @denied") refl)
      go false false = nil-IsBlock

  all_rule_lines-IsBlock :
      (rs : List AccessRule)
      → All (λ (r : AccessRule). is_plain r.ip_range ≡ true) rs
      → IsBlock (all_rule_lines rs)
  unfolding all_rule_lines
  all_rule_lines-IsBlock [] h = nil-IsBlock
  all_rule_lines-IsBlock (r ∷ rs) (h, hs) =
      append-IsBlock (rule_lines-IsBlock r h) (all_rule_lines-IsBlock rs hs)

  pub render_access_rules-IsBlock :
      (rs : List AccessRule)
      → All (λ (r : AccessRule). is_plain r.ip_range ≡ true) rs
      → IsBlock (render_access_rules sort rs)
  unfolding render_access_rules
  render_access_rules-IsBlock rs h = all_rule_lines-IsBlock _ (sort-All _ _ rs h)

  abbrev pub PlainHeader : CustomHeader → Type 0
  PlainHeader h = (is_plain h.name ≡ true) × (is_plain h.value ≡ true)

  header_lines-IsBlock : (h : CustomHeader) → PlainHeader h → IsBlock (header_lines h)
  header_lines-IsBlock h (n, v) =
      go (text_eq h.operation (codes "set")) (text_eq h.operation (codes "add"))
        (text_eq h.operation (codes "delete"))
    where
      line : Text
      line = h.name ++ (codes " \"" ++ (h.value ++ codes "\""))

      plain : is_plain line ≡ true
      plain = both-plain h.name _ n (both-plain h.value (codes "\"") v refl)

      go :
          (a b c : Bool)
          → IsBlock (
              if a
              then (codes "\t\t" ++ line) ∷ []
              else if b
              then (codes "\t\t+" ++ line) ∷ []
              else if c
              then (codes "\t\t-" ++ h.name) ∷ []
              else [])
      go true b c = plain-IsBlock (codes "\t\t" ++ line) plain
      go false true c = plain-IsBlock (codes "\t\t+" ++ line) plain
      go false false true = plain-IsBlock (codes "\t\t-" ++ h.name) n
      go false false false = nil-IsBlock

  all_header_lines-IsBlock :
      (hs : List CustomHeader) → All PlainHeader hs → IsBlock (all_header_lines hs)
  unfolding all_header_lines
  all_header_lines-IsBlock [] h = nil-IsBlock
  all_header_lines-IsBlock (x ∷ hs) (h, k) =
      append-IsBlock (header_lines-IsBlock x h) (all_header_lines-IsBlock hs k)

  render_response_headers-IsBlock :
      (hs : List CustomHeader) → All PlainHeader hs → IsBlock (render_response_headers sort hs)
  unfolding render_response_headers brace_depth brace_step line_text trim_left trim_space trim_right
      is_space has_prefix
  render_response_headers-IsBlock [] h = nil-IsBlock
  render_response_headers-IsBlock (x ∷ hs) h =
      nest-IsBlock b'h' (codes "\theader {") _ (codes "\t}") refl refl refl (λ d. refl) refl
        (λ d. refl) refl (all_header_lines-IsBlock _ (sort-All PlainHeader _ (x ∷ hs) h))

  pub render_proxy_host-IsBlock :
      (h : Host)
      → All (λ (u : Upstream). is_plain u.address ≡ true) h.upstreams
      → All (λ (r : Route). is_plain r.path ≡ true) h.routes
      → All PlainHeader h.custom_headers
      → IsBlock (render_proxy_host sort h)
  unfolding render_proxy_host render_routes
  render_proxy_host-IsBlock h us rs hs =
      let upstreams = sort Upstream (λ u. u.sort_order) h.upstreams in
      append-IsBlock (go (not (null h.routes)) (not (null upstreams)))
        (render_response_headers-IsBlock h.custom_headers hs)
    where
      go :
          (a b : Bool)
          → IsBlock (
              if a
              then route_lines h.upstreams (sort Route (λ r. r.sort_order) h.routes)
              else if b
              then render_reverse_proxy (sort Upstream (λ u. u.sort_order) h.upstreams)
              else [])
      go true b = route_lines-IsBlock h.upstreams _ us (sort-All _ _ h.routes rs)
      go false true = render_reverse_proxy-IsBlock _ (sort-All _ _ h.upstreams us)
      go false false = nil-IsBlock
