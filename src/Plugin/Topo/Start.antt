-- ===== src/Plugin/Topo/Start.antt =====
-- The first queue: `inDeg` has one entry for each plugin, and those without dependencies are ready.
use mathlib.Core.Path.{subst}
use pdai_server_panel.Common.{
  ℕ, ◌+◌, ◌≤◌, String, Option, none, some, List, [], ◌∷◌, ◌≡◌, refl, sym, ◌∙◌, if◌then◌else◌, arith,
  eq_iff, Bool-cases, Option-cases, Result-cases, inl, inr, lookup, insert, lookup-insert, is_some,
  ok, ℤ, pos, incr, is_zero,
}
use pdai_server_panel.Plugin.Topo.{
  Plugins, Edges, get_deg, add_edge, add_deps, add_node, build, ready,
}
use pdai_server_panel.Plugin.Topo.Count.{same, count, ids}
use pdai_server_panel.Plugin.Topo.Built.{deps-some, deps-none}
use pdai_server_panel.Plugin.Topo.Tables.{build-ok, build-err}

abbrev pub Degrees : Type 0
Degrees = List (String × ℤ)

abbrev pub names : Degrees → List String
names [] = []
names ((x, d) ∷ m) = x ∷ names m

-- The table has one entry for each of its names.
abbrev pub HasUniqueNames : Degrees → Type 0
HasUniqueNames m = (x : String) → count x (names m) ≡ (if is_some (lookup x m) then 1 else 0)

count-insert :
    (k x : String) (v : ℤ) (m : Degrees)
    → count x (names (insert k v m))
      ≡ (if is_some (lookup k m) then 0 else same x k) + count x (names m)
unfolding lookup insert count
count-insert k x v [] = omega arith
count-insert k x v ((j, w) ∷ m) = ground (arith, count-insert k x v m, eq_iff j k)

insert-HasUniqueNames :
    (k : String) (v : ℤ) (m : Degrees) → HasUniqueNames m → HasUniqueNames (insert k v m)
insert-HasUniqueNames k v m h x =
    count-insert k x v m ∙ rw lookup-insert (ground (arith, h x, h k, eq_iff k x))

add_deps-HasUniqueNames :
    (ps : Plugins) (id : String) (deps : List String) (g : Edges) {g' : Edges}
    → HasUniqueNames g.in_deg
    → add_deps ps id deps g ≡ ok g'
    → HasUniqueNames g'.in_deg
unfolding add_deps add_edge
add_deps-HasUniqueNames ps id [] g {g'} u h =
    let e : g ≡ g' = ground arith in subst (λ (w : Edges). HasUniqueNames w.in_deg) e u
add_deps-HasUniqueNames ps id (dep ∷ deps) g u h = elim (Option-cases (lookup dep ps)) [
  | inl e ↦ cc (deps-none ps id dep deps g e)
  | inr (p, e) ↦
      add_deps-HasUniqueNames ps id deps (add_edge g id dep)
        (insert-HasUniqueNames id (incr (get_deg id g.in_deg)) g.in_deg u)
        (sym (deps-some ps id dep deps g p e) ∙ h)
]

add_node-HasUniqueNames :
    (id : String) (g : Edges) → HasUniqueNames g.in_deg → HasUniqueNames (add_node id g).in_deg
unfolding add_node
add_node-HasUniqueNames id g u = elim (Bool-cases (is_some (lookup id g.in_deg))) [
  | inl e ↦ rw e u
  | inr e ↦ rw e (insert-HasUniqueNames id (pos 0) g.in_deg u)
]

pub build-HasUniqueNames :
    (ps rest : Plugins) (g : Edges) {g' : Edges}
    → HasUniqueNames g.in_deg
    → build ps rest g ≡ ok g'
    → HasUniqueNames g'.in_deg
unfolding build
build-HasUniqueNames ps [] g {g'} u h =
    let e : g ≡ g' = ground arith in subst (λ (w : Edges). HasUniqueNames w.in_deg) e u
build-HasUniqueNames ps ((id, p) ∷ rest) g u h =
    elim (Result-cases (add_deps ps id p.dependencies (add_node id g))) [
      | inr (e, k) ↦ cc (build-err ps id p rest g e k)
      | inl (f, k) ↦
          build-HasUniqueNames ps rest f
            (add_deps-HasUniqueNames ps id p.dependencies (add_node id g)
              (add_node-HasUniqueNames id g u) k)
            (sym (build-ok ps id p rest g f k) ∙ h)
    ]

ready-absent :
    (ps : Plugins) (m : Degrees) (x : String)
    → count x (names m) ≡ 0
    → count x (ids (ready ps m)) ≡ 0
unfolding ready count
ready-absent ps [] x h = refl
ready-absent ps ((id, d) ∷ m) x h = ground (arith, ready-absent ps m x)

abbrev pub zero_entry : Option ℤ → ℕ
zero_entry none = 0
zero_entry (some d) = if is_zero d then 1 else 0

-- A plugin is ready, once, exactly when its degree is 0.
pub count-ready :
    (ps : Plugins) (m : Degrees) (x : String)
    → count x (names m) ≤ 1
    → count x (ids (ready ps m)) ≡ zero_entry (lookup x m)
unfolding ready count lookup
count-ready ps [] x h = refl
count-ready ps ((id, d) ∷ m) x h = ground (arith, ready-absent ps m x, count-ready ps m x)
