-- ===== src/Plugin/Topo/Tables.antt =====
-- `inDeg` and `adj` when the loop over the plugins has ended, or the error that ended it.
use text.Mathlib.TextPositions.{eq_refl}
use pdai_server_panel.Common.{
  ◌+◌, ◌<◌, String, false, none, some, List, [], ◌∷◌, ◌≡◌, refl, sym, ap, ◌∙◌, length, arith, ◌=ˢ◌,
  eq_iff, Bool-cases, Result-cases, inl, inr, lookup, ok, err, pos, All, Any,
}
use pdai_server_panel.Plugin.Topo.{
  Metadata, Plugins, TopoError, unknown_dependency, Edges, get_adj, add_deps, add_node, build,
}
use pdai_server_panel.Plugin.Topo.Count.{count}
use pdai_server_panel.Plugin.Topo.Built.{
  keys, edges, degree, Known, add_deps-adj, add_deps-deg, add_deps-deg_ne, add_deps-Known,
  add_deps-err, add_node-adj, add_node-new, add_node-ne,
}

module _ (ps : Plugins) (id : String) (p : Metadata) (rest : Plugins) (g : Edges) where
  pub build-ok :
      (g' : Edges)
      → add_deps ps id p.dependencies (add_node id g) ≡ ok g'
      → build ps ((id, p) ∷ rest) g ≡ build ps rest g'
  unfolding build
  build-ok g' h = rw (h, build) refl

  pub build-err :
      (e : TopoError)
      → add_deps ps id p.dependencies (add_node id g) ≡ err e
      → build ps ((id, p) ∷ rest) g ≡ err e
  unfolding build
  build-err e h = rw (h, build) refl

-- The entries for a plugin after its node and its edges are in.
node_deg :
    (ps : Plugins) (id : String) (deps : List String) (g : Edges) {g' : Edges}
    → lookup id g.in_deg ≡ none
    → add_deps ps id deps (add_node id g) ≡ ok g'
    → lookup id g'.in_deg ≡ some (pos (length deps))
node_deg ps id deps g n h =
    add_deps-deg ps id deps (add_node id g) id 0 (add_node-new id g n) h
    ∙ rw (eq_refl id) (ap (λ m. some (pos m)) (omega arith))

node_ne :
    (ps : Plugins) (id : String) (deps : List String) (g : Edges) {g' : Edges} (x : String)
    → (id =ˢ x) ≡ false
    → add_deps ps id deps (add_node id g) ≡ ok g'
    → lookup x g'.in_deg ≡ lookup x g.in_deg
node_ne ps id deps g x n h = add_deps-deg_ne ps id deps (add_node id g) x n h ∙ add_node-ne id x g n

pub build-adj :
    (ps rest : Plugins) (g : Edges) {g' : Edges} (x d : String)
    → build ps rest g ≡ ok g'
    → count x (get_adj d g'.adj) ≡ count x (get_adj d g.adj) + edges rest x d
unfolding build edges
build-adj ps [] g {g'} x d h =
    let e : g ≡ g' = ground arith in omega (arith, ap (λ (w : Edges). count x (get_adj d w.adj)) e)
build-adj ps ((id, p) ∷ rest) g x d h =
    elim (Result-cases (add_deps ps id p.dependencies (add_node id g))) [
      | inr (e, k) ↦ cc (build-err ps id p rest g e k)
      | inl (f, k) ↦ omega (
        arith,
        build-adj ps rest f x d (sym (build-ok ps id p rest g f k) ∙ h),
        add_deps-adj ps id p.dependencies (add_node id g) x d k,
        ap (λ a. count x (get_adj d a)) (add_node-adj id g),
      )
    ]

-- What is in the table before a plugin's own turn stays as it is after it.
pub build-keep :
    (ps rest : Plugins) (g : Edges) {g' : Edges} (x : String)
    → count x (keys rest) ≡ 0
    → build ps rest g ≡ ok g'
    → lookup x g'.in_deg ≡ lookup x g.in_deg
unfolding build count
build-keep ps [] g {g'} x c h =
    let e : g ≡ g' = ground arith in ap (λ (w : Edges). lookup x w.in_deg) (sym e)
build-keep ps ((id, p) ∷ rest) g x c h =
    elim (Result-cases (add_deps ps id p.dependencies (add_node id g))) [
      | inr (e, k) ↦ cc (build-err ps id p rest g e k)
      | inl (f, k) ↦
          build-keep ps rest f x (omega arith) (sym (build-ok ps id p rest g f k) ∙ h)
          ∙ node_ne ps id p.dependencies g x (ground arith) k
    ]

degree-absent : (ps : Plugins) (x : String) → count x (keys ps) ≡ 0 → degree ps x ≡ 0
unfolding degree count
degree-absent [] x h = refl
degree-absent ((id, p) ∷ ps) x h = ground (arith, degree-absent ps x)

pub build-deg :
    (ps rest : Plugins) (g : Edges) {g' : Edges} (x : String)
    → lookup x g.in_deg ≡ none
    → count x (keys rest) ≡ 1
    → build ps rest g ≡ ok g'
    → lookup x g'.in_deg ≡ some (pos (degree rest x))
unfolding build count degree
build-deg ps [] g x n c h = absurd (omega arith)
build-deg ps ((id, p) ∷ rest) g {g'} x n c h =
    elim (Result-cases (add_deps ps id p.dependencies (add_node id g))) [
      | inr (e, k) ↦ cc (build-err ps id p rest g e k)
      | inl (f, k) ↦
          let h' : build ps rest f ≡ ok g' = sym (build-ok ps id p rest g f k) ∙ h in
          elim (Bool-cases (id =ˢ x)) [
            | inl e ↦
                let i : id ≡ x = (eq_iff id x).0 e in
                let nd : lookup x f.in_deg ≡ some (pos (length p.dependencies)) =
                  rw (← i) (node_deg ps id p.dependencies g (rw i n) k) in
                let z : count x (keys rest) ≡ 0 = ground arith in
                build-keep ps rest f x z h'
                ∙ nd
                ∙ ap (λ m. some (pos m)) (ground (arith, degree-absent rest x))
            | inr e ↦
                build-deg ps rest f x (node_ne ps id p.dependencies g x e k ∙ n) (ground arith) h'
                ∙ ap (λ m. some (pos m)) (ground arith)
          ]
    ]

pub build-Known :
    (ps rest : Plugins) (g : Edges) {g' : Edges}
    → build ps rest g ≡ ok g'
    → All (λ q. Known ps q.1.dependencies) rest
unfolding build
build-Known ps [] g h = tt
build-Known ps ((id, p) ∷ rest) g h =
    elim (Result-cases (add_deps ps id p.dependencies (add_node id g))) [
      | inr (e, k) ↦ cc (build-err ps id p rest g e k)
      | inl (f, k) ↦ (
        add_deps-Known ps id p.dependencies (add_node id g) k,
        build-Known ps rest f (sym (build-ok ps id p rest g f k) ∙ h),
      )
    ]

-- The loop fails only at a plugin with a dependency that is not registered.
pub build-unknown :
    (ps rest : Plugins) (g : Edges) {x : TopoError}
    → build ps rest g ≡ err x
    → (id : String) × (dep : String) × (x ≡ unknown_dependency id dep)
      × (lookup dep ps ≡ none)
      × Any (λ q. (q.0 ≡ id) × (0 < count dep q.1.dependencies)) rest
unfolding build
build-unknown ps [] g h = cc
build-unknown ps ((id, p) ∷ rest) g {x} h =
    elim (Result-cases (add_deps ps id p.dependencies (add_node id g))) [
      | inl (f, k) ↦
          let (i, d, a, b, c) = build-unknown ps rest f (sym (build-ok ps id p rest g f k) ∙ h) in
          (i, d, a, b, inr c)
      | inr (e, k) ↦
          let (d, a, b, c) = add_deps-err ps id p.dependencies (add_node id g) k in
          let q : err x ≡ err e = sym h ∙ build-err ps id p rest g e k in
          (id, d, cc, c, inl (refl, b))
    ]
