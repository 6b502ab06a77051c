-- ===== src/Plugin/Topo/Built.antt =====
-- The two loops that build `inDeg` and `adj`: what the tables hold when they end.
use text.Mathlib.TextPositions.{eq_refl}
use pdai_server_panel.Common.{
  ℕ, ◌+◌, ◌<◌, String, true, false, none, some, List, [], ◌∷◌, ◌≡◌, refl, sym, ap, ◌∙◌,
  if◌then◌else◌, length, arith, ◌=ˢ◌, eq_iff, Bool-cases, Option-cases, inl, inr, lookup, insert,
  lookup-insert, is_some, ok, err, ℤ, pos, All,
}
use pdai_server_panel.Plugin.Topo.{
  Metadata, Plugins, TopoError, unknown_dependency, Edges, or_zero, get_deg, get_adj, add_edge,
  add_deps, add_node,
}
use pdai_server_panel.Plugin.Topo.Count.{same, same_self, count, count-append}

abbrev pub keys : Plugins → List String
keys [] = []
keys ((id, p) ∷ ps) = id ∷ keys ps

-- How often the entries for `x` depend on `d`.
unfoldable pub edges : Plugins → String → String → ℕ
edges [] x d = 0
edges ((id, p) ∷ ps) x d = (if id =ˢ x then count d p.dependencies else 0) + edges ps x d

-- How many dependencies the entries for `x` have.
unfoldable pub degree : Plugins → String → ℕ
degree [] x = 0
degree ((id, p) ∷ ps) x = (if id =ˢ x then length p.dependencies else 0) + degree ps x

abbrev pub Known : Plugins → List String → Type 0
Known ps = All (λ d. is_some (lookup d ps) ≡ true)

module _ (ps : Plugins) (id dep : String) (deps : List String) (g : Edges) where
  pub deps-some :
      (p : Metadata)
      → lookup dep ps ≡ some p
      → add_deps ps id (dep ∷ deps) g ≡ add_deps ps id deps (add_edge g id dep)
  unfolding add_deps
  deps-some p h = rw (h, add_deps) refl

  pub deps-none :
      lookup dep ps ≡ none → add_deps ps id (dep ∷ deps) g ≡ err (unknown_dependency id dep)
  unfolding add_deps
  deps-none h = rw (h, add_deps) refl

pub get_adj-insert :
    (k j : String) (v : List String) (m : List (String × List String))
    → get_adj j (insert k v m) ≡ (if k =ˢ j then v else get_adj j m)
get_adj-insert k j v m = unfold get_adj in rw lookup-insert (ground arith)

pub get_deg-some :
    (k : String) (m : List (String × ℤ)) (n : ℤ) → lookup k m ≡ some n → get_deg k m ≡ n
unfolding get_deg
get_deg-some k m n h = ap or_zero h

add_edge-adj :
    (g : Edges) (id dep x d : String)
    → count x (get_adj d (add_edge g id dep).adj)
      ≡ count x (get_adj d g.adj) + (if id =ˢ x then same d dep else 0)
unfolding add_edge count
add_edge-adj g id dep x d =
    rw get_adj-insert (ground (arith, eq_iff dep d, count-append x (get_adj dep g.adj) (id ∷ [])))

add_edge-deg :
    (g : Edges) (id dep x : String) (n : ℕ)
    → lookup x g.in_deg ≡ some (pos n)
    → lookup x (add_edge g id dep).in_deg ≡ some (pos (n + (if id =ˢ x then 1 else 0)))
unfolding add_edge
add_edge-deg g id dep x n h =
    rw lookup-insert (ground (arith, eq_iff id x, get_deg-some x g.in_deg (pos n)))

add_edge-deg_none :
    (g : Edges) (id dep x : String)
    → (id =ˢ x) ≡ false
    → lookup x (add_edge g id dep).in_deg ≡ lookup x g.in_deg
unfolding add_edge
add_edge-deg_none g id dep x h = rw lookup-insert (rw h)

pub add_deps-adj :
    (ps : Plugins) (id : String) (deps : List String) (g : Edges) {g' : Edges} (x d : String)
    → add_deps ps id deps g ≡ ok g'
    → count x (get_adj d g'.adj) ≡ count x (get_adj d g.adj) + (if id =ˢ x then count d deps else 0)
unfolding add_deps count
add_deps-adj ps id [] g x d h = ground arith
add_deps-adj ps id (dep ∷ deps) g x d h = elim (Option-cases (lookup dep ps)) [
  | inl e ↦ cc (deps-none ps id dep deps g e)
  | inr (p, e) ↦
      let ih =
        add_deps-adj ps id deps (add_edge g id dep) x d
          (sym (deps-some ps id dep deps g p e) ∙ h) in
      ground (arith, ih, add_edge-adj g id dep x d)
]

pub add_deps-deg :
    (ps : Plugins) (id : String) (deps : List String) (g : Edges) {g' : Edges} (x : String) (n : ℕ)
    → lookup x g.in_deg ≡ some (pos n)
    → add_deps ps id deps g ≡ ok g'
    → lookup x g'.in_deg ≡ some (pos (n + (if id =ˢ x then length deps else 0)))
unfolding add_deps
add_deps-deg ps id [] g x n k h = ground arith
add_deps-deg ps id (dep ∷ deps) g x n k h = elim (Option-cases (lookup dep ps)) [
  | inl e ↦ cc (deps-none ps id dep deps g e)
  | inr (p, e) ↦
      let ih =
        add_deps-deg ps id deps (add_edge g id dep) x (n + (if id =ˢ x then 1 else 0))
          (add_edge-deg g id dep x n k) (sym (deps-some ps id dep deps g p e) ∙ h) in
      ground (arith, ih)
]

pub add_deps-deg_ne :
    (ps : Plugins) (id : String) (deps : List String) (g : Edges) {g' : Edges} (x : String)
    → (id =ˢ x) ≡ false
    → add_deps ps id deps g ≡ ok g'
    → lookup x g'.in_deg ≡ lookup x g.in_deg
unfolding add_deps
add_deps-deg_ne ps id [] g {g'} x k h =
    let e : g ≡ g' = ground arith in ap (λ (w : Edges). lookup x w.in_deg) (sym e)
add_deps-deg_ne ps id (dep ∷ deps) g x k h = elim (Option-cases (lookup dep ps)) [
  | inl e ↦ cc (deps-none ps id dep deps g e)
  | inr (p, e) ↦
      add_deps-deg_ne ps id deps (add_edge g id dep) x k (sym (deps-some ps id dep deps g p e) ∙ h)
      ∙ add_edge-deg_none g id dep x k
]

pub add_deps-Known :
    (ps : Plugins) (id : String) (deps : List String) (g : Edges) {g' : Edges}
    → add_deps ps id deps g ≡ ok g'
    → Known ps deps
add_deps-Known ps id [] g h = tt
add_deps-Known ps id (dep ∷ deps) g h = elim (Option-cases (lookup dep ps)) [
  | inl e ↦ cc (deps-none ps id dep deps g e)
  | inr (p, e) ↦ (
    rw e,
    add_deps-Known ps id deps (add_edge g id dep) (sym (deps-some ps id dep deps g p e) ∙ h),
  )
]

pub add_deps-err :
    (ps : Plugins) (id : String) (deps : List String) (g : Edges) {x : TopoError}
    → add_deps ps id deps g ≡ err x
    → (dep : String) × (x ≡ unknown_dependency id dep)
      × (0 < count dep deps)
      × (lookup dep ps ≡ none)
unfolding add_deps count
add_deps-err ps id [] g h = cc
add_deps-err ps id (dep ∷ deps) g {x} h = elim (Option-cases (lookup dep ps)) [
  | inl e ↦
      let k : err x ≡ err (unknown_dependency id dep) = sym h ∙ deps-none ps id dep deps g e in
      (dep, cc, omega (arith, same_self dep), e)
  | inr (p, e) ↦
      let (d, a, b, c) =
        add_deps-err ps id deps (add_edge g id dep) (sym (deps-some ps id dep deps g p e) ∙ h) in
      (d, a, omega arith, c)
]

pub add_node-adj : (id : String) (g : Edges) → (add_node id g).adj ≡ g.adj
unfolding add_node
add_node-adj id g = ground arith

pub add_node-new :
    (id : String) (g : Edges)
    → lookup id g.in_deg ≡ none
    → lookup id (add_node id g).in_deg ≡ some (pos 0)
unfolding add_node
add_node-new id g h = rw h (rw lookup-insert (rw (eq_refl id)))

pub add_node-ne :
    (id x : String) (g : Edges)
    → (id =ˢ x) ≡ false
    → lookup x (add_node id g).in_deg ≡ lookup x g.in_deg
unfolding add_node
add_node-ne id x g h = elim (Bool-cases (is_some (lookup id g.in_deg))) [
  | inl e ↦ rw e
  | inr e ↦ rw e (rw lookup-insert (rw h))
]
