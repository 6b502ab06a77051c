-- ===== src/Plugin/Topo.antt =====
-- internal/plugin/manager.go, `topoSort`: Kahn's algorithm over the declared dependencies.
-- A map is an association list; the order of its entries is the order of `range`. `sort.Slice` is
-- the parameter `sort`, since it promises no order between entries of one priority.
pub mod Count
pub mod Built
pub mod Tables
pub mod Released
pub mod Start
pub mod Loop
pub mod Begun
pub mod Sorted
use pdai_server_panel.Common.{
  ℕ, zero, suc, ◌+◌, String, Bool, true, false, Option, none, some, List, [], ◌∷◌, ◌++◌, ◌==◌,
  if◌then◌else◌, length, lookup, insert, is_some, Result, ok, err, ℤ, pos, incr, decr, is_zero,
}

-- `Metadata`, as far as the manager reads it.
pub record Metadata : Type 0 where
  pub id : String
  pub dependencies : List String
  pub priority : ℤ

abbrev pub Plugins : Type 0
Plugins = List (String × Metadata)

-- `entry`
pub record Entry : Type 0 where
  pub id : String
  pub priority : ℤ

pub data TopoError : Type 0 where
  unknown_dependency : String → String → TopoError
  circular : TopoError
  -- of the model alone
  out_of_fuel : TopoError

-- `inDeg` and `adj`
pub record Edges : Type 0 where
  pub in_deg : List (String × ℤ)
  pub adj : List (String × List String)

-- m[k], with the zero value of a missing key
abbrev pub or_zero : Option ℤ → ℤ
or_zero none = pos 0
or_zero (some n) = n

abbrev pub or_nil : Option (List String) → List String
or_nil none = []
or_nil (some ids) = ids

unfoldable pub get_deg : String → List (String × ℤ) → ℤ
get_deg k m = or_zero (lookup k m)

unfoldable pub get_adj : String → List (String × List String) → List String
get_adj k m = or_nil (lookup k m)

unfoldable pub add_edge : Edges → String → String → Edges
add_edge g id dep = record {
  in_deg = insert id (incr (get_deg id g.in_deg)) g.in_deg;
  adj = insert dep (get_adj dep g.adj ++ id ∷ []) g.adj;
}

-- The loop over the dependencies of one plugin.
unfoldable pub add_deps : Plugins → String → List String → Edges → Result TopoError Edges
add_deps ps id [] g = ok g
add_deps ps id (dep ∷ deps) g = elim (lookup dep ps) [
  | none ↦ err (unknown_dependency id dep)
  | some p ↦ add_deps ps id deps (add_edge g id dep)
]

unfoldable pub add_node : String → Edges → Edges
add_node id g =
    if is_some (lookup id g.in_deg) then g else record g { in_deg = insert id (pos 0) g.in_deg }

-- The loop over the plugins that are still to be visited.
unfoldable pub build : Plugins → Plugins → Edges → Result TopoError Edges
build ps [] g = ok g
build ps ((id, p) ∷ rest) g = elim (add_deps ps id p.dependencies (add_node id g)) [
  | ok g' ↦ build ps rest g'
  | err e ↦ err e
]

abbrev pub priority_of : Plugins → String → ℤ
priority_of ps id = elim (lookup id ps) [ none ↦ pos 0 | some p ↦ p.priority ]

abbrev pub entry_of : Plugins → String → Entry
entry_of ps id = record { id = id; priority = priority_of ps id }

-- The plugins that wait for nothing.
unfoldable pub ready : Plugins → List (String × ℤ) → List Entry
ready ps [] = []
ready ps ((id, d) ∷ rest) =
    let more = ready ps rest in if is_zero d then entry_of ps id ∷ more else more

-- The loop over `adj[cur.id]`.
unfoldable pub release :
    Plugins → List String → List (String × ℤ) → List Entry → List (String × ℤ) × List Entry
release ps [] deg queue = (deg, queue)
release ps (next ∷ rest) deg queue =
    let d = decr (get_deg next deg) in
    release ps rest (insert next d deg)
      (if is_zero d then queue ++ entry_of ps next ∷ [] else queue)

module _ (sort : List Entry → List Entry) where
  -- The main loop, with fuel. Its result is the order.
  unfoldable pub drain :
      ℕ
      → Plugins
      → List (String × List String)
      → List (String × ℤ)
      → List Entry
      → List String
      → Option (List String)
  drain fuel ps adj deg [] order = some order
  drain zero ps adj deg (cur ∷ queue) order = none
  drain (suc fuel) ps adj deg (cur ∷ queue) order =
      let (deg', queue') = release ps (get_adj cur.id adj) deg queue in
      drain fuel ps adj deg' (sort queue') (order ++ cur.id ∷ [])

  unfoldable pub finish : Plugins → Option (List String) → Result TopoError (List String)
  finish ps none = err out_of_fuel
  finish ps (some order) = if length order == length ps then ok order else err circular

  unfoldable pub drain_edges : Plugins → Result TopoError Edges → Result TopoError (List String)
  drain_edges ps (err e) = err e
  drain_edges ps (ok g) =
      finish ps (drain (length ps) ps g.adj g.in_deg (sort (ready ps g.in_deg)) [])

  unfoldable pub topo_sort : Plugins → Result TopoError (List String)
  topo_sort ps = drain_edges ps (build ps ps (record { in_deg = []; adj = [] }))
