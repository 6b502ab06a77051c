-- ===== src/Plugin/Topo/Sorted.antt =====
-- `topoSort` as a whole.
use mathlib.Core.Path.{subst, subst₂}
use pdai_server_panel.Common.{
  ℕ, zero, suc, ◌≤◌, ◌<◌, String, none, some, List, [], ◌∷◌, ◌==◌, ◌≡◌, ◌≢◌, refl, ap, ◌∙◌,
  if◌then◌else◌, arith, ◌=ˢ◌, eq_iff, Bool-cases, Option-cases, inl, inr, lookup, All, Any, length,
  ok, err, Result-cases,
}
use pdai_server_panel.Plugin.Topo.{
  Metadata, Plugins, Entry, Edges, unknown_dependency, circular, out_of_fuel, build, ready, finish,
  drain_edges, topo_sort,
}
use pdai_server_panel.Plugin.Topo.Count.{count, count-eq_of_length, length-eq_of_count}
use pdai_server_panel.Plugin.Topo.Built.{keys, Known}
use pdai_server_panel.Plugin.Topo.Tables.{build-unknown}
use pdai_server_panel.Plugin.Topo.Start.{Degrees}
use pdai_server_panel.Plugin.Topo.Loop.{pending, DepsFirst, Inv, Permutes}
use pdai_server_panel.Plugin.Topo.Begun.{
  IsKeyed, keys-some, keys-none, start-IsAdj, start-Inv, drain_total,
}

length-keys : (ps : Plugins) → length (keys ps) ≡ length ps
length-keys [] = refl
length-keys ((id, p) ∷ ps) = ap suc (length-keys ps)

-- Dependencies that come before the plugin in some ranking.
abbrev pub IsRanked : Plugins → (String → ℕ) → Type 0
IsRanked ps rank =
    (x : String) (p : Metadata) → lookup x ps ≡ some p → All (λ d. rank d < rank x) p.dependencies

-- Every dependency is registered.
abbrev pub IsClosed : Plugins → Type 0
IsClosed ps = All (λ q. Known ps q.1.dependencies) ps

lookup-All :
    (P : String × Metadata → Type 0) (ps : Plugins) (x : String) (p : Metadata)
    → All P ps
    → lookup x ps ≡ some p
    → P (x, p)
unfolding lookup
lookup-All P [] x p a h = cc
lookup-All P ((id, q) ∷ ps) x p (a, as') h = elim (Bool-cases (id =ˢ x)) [
  | inl e ↦
      let i : id ≡ x = (eq_iff id x).0 e in
      let j : q ≡ p = ground arith in subst₂ (λ y r. P (y, r)) i j a
  | inr e ↦ lookup-All P ps x p as' (ground arith)
]

pending-All : (order ds : List String) → All (λ d. 0 < count d order) ds → pending order ds ≡ 0
unfolding pending
pending-All order [] h = refl
pending-All order (d ∷ ds) h = ground (arith, pending-All order ds)

-- A registered dependency that is loaded whenever it is ranked below `n` is loaded.
below :
    (ps : Plugins) (rank : String → ℕ) (n : ℕ) (order ds : List String)
    → ((d : String) (p : Metadata) → rank d < n → lookup d ps ≡ some p → 0 < count d order)
    → Known ps ds
    → All (λ d. rank d < n) ds
    → All (λ d. 0 < count d order) ds
below ps rank n order [] ih k r = tt
below ps rank n order (d ∷ ds) ih (k, ks) (r, rs) = elim (Option-cases (lookup d ps)) [
  | inl e ↦ absurd (ground arith)
  | inr (p, e) ↦ (ih d p r e, below ps rank n order ds ih ks rs)
]

count-Known :
    (ps : Plugins) (d : String) (ds : List String)
    → Known ps ds
    → 0 < count d ds
    → lookup d ps ≢ none
unfolding count
count-Known ps d [] k h e = absurd (omega arith)
count-Known ps d (x ∷ ds) k h e = ground (arith, eq_iff x d, count-Known ps d ds)

no_unknown :
    (ps rest : Plugins) (id d : String)
    → All (λ q. Known ps q.1.dependencies) rest
    → lookup d ps ≡ none
    → Any (λ q. (q.0 ≡ id) × (0 < count d q.1.dependencies)) rest
    → ⊥
no_unknown ps ((x, p) ∷ rest) id d (k, ks) e (inl a) = count-Known ps d p.dependencies k a.1 e
no_unknown ps ((x, p) ∷ rest) id d (k, ks) e (inr a) = no_unknown ps rest id d ks e a
no_unknown ps [] id d ks e a = a

module _ (sort : List Entry → List Entry) (permutes : Permutes sort) (ps : Plugins)
    (keyed : IsKeyed ps) where
  final_count-le :
      (deg : Degrees) (order : List String)
      → Inv ps deg [] order
      → (x : String) → count x order ≤ count x (keys ps)
  unfolding count
  final_count-le deg order inv x = elim (Option-cases (lookup x ps)) [
    | inl e ↦ omega (arith, inv.only x e)
    | inr (p, e) ↦ ground (arith, inv.once x p e, keys-some ps x p e)
  ]

  -- The main loop from its start.
  loop_result :
      (g : Edges)
      → build ps ps (record { in_deg = []; adj = [] }) ≡ ok g
      → (order : List String) × (deg : Degrees) × (topo_sort sort ps
          ≡ (if length order == length ps then ok order else err circular))
        × Inv ps deg [] order
  unfolding topo_sort drain_edges finish
  loop_result g e =
      let (order, deg, h, inv) =
        drain_total sort permutes ps keyed g.adj (start-IsAdj sort permutes ps keyed g e)
          (length ps) g.in_deg (sort (ready ps g.in_deg)) [] (start-Inv sort permutes ps keyed g e)
          (omega (arith, length-keys ps)) in
      (order, deg, rw e (rw h refl), inv)

  -- For a sort that permutes the queue and a registry with distinct ids:
  -- an order that `topoSort` returns holds every registered plugin exactly once and nothing else,
  -- and each plugin stands behind all of its dependencies.
  pub topo_sort-DepsFirst :
      (order : List String)
      → topo_sort sort ps ≡ ok order
      → ((x : String) → count x order ≡ count x (keys ps)) × DepsFirst ps [] order
  unfolding topo_sort drain_edges
  topo_sort-DepsFirst order h =
      elim (Result-cases (build ps ps (record { in_deg = []; adj = [] }))) [
        | inr (x, e) ↦ absurd (ground arith)
        | inl (g, e) ↦
            let (order', deg, k, inv) = loop_result g e in
            let same_order : order' ≡ order = ground arith in
            let same_length : length order' ≡ length ps = ground arith in
            rw (← same_order) (
              count-eq_of_length order' (keys ps) (final_count-le deg order' inv)
                  (omega (arith, length-keys ps)),
              inv.sound,
            )
      ]

  -- For a sort that permutes the queue and a registry with distinct ids:
  -- the error for an unknown dependency names a registered plugin and a dependency of it that is
  -- not registered.
  pub topo_sort-unknown :
      (id dep : String)
      → topo_sort sort ps ≡ err (unknown_dependency id dep)
      → (lookup dep ps ≡ none) × Any (λ q. (q.0 ≡ id) × (0 < count dep q.1.dependencies)) ps
  unfolding topo_sort drain_edges
  topo_sort-unknown id dep h =
      elim (Result-cases (build ps ps (record { in_deg = []; adj = [] }))) [
        | inl (g, e) ↦ let (order, deg, k, inv) = loop_result g e in absurd (ground arith)
        | inr (x, e) ↦
            let (i, d, a, b, c) = build-unknown ps ps (record { in_deg = []; adj = [] }) e in
            let same_id : i ≡ id = ground arith in
            let same_dep : d ≡ dep = ground arith in
            subst
              (λ y.
                (lookup y ps ≡ none) × Any (λ q. (q.0 ≡ id) × (0 < count y q.1.dependencies)) ps)
              same_dep
              (b, subst (λ y. Any (λ q. (q.0 ≡ y) × (0 < count d q.1.dependencies)) ps) same_id c)
      ]

  -- For a sort that permutes the queue and a registry with distinct ids, the fuel of one step for
  -- each plugin is enough: `topo_sort` never runs out of it.
  pub topo_sort-fuel : topo_sort sort ps ≢ err out_of_fuel
  unfolding topo_sort drain_edges
  topo_sort-fuel h = elim (Result-cases (build ps ps (record { in_deg = []; adj = [] }))) [
    | inl (g, e) ↦ let (order, deg, k, inv) = loop_result g e in absurd (ground arith)
    | inr (x, e) ↦
        let (i, d, a, b, c) = build-unknown ps ps (record { in_deg = []; adj = [] }) e in
        absurd (ground arith)
  ]

  module _ (closed : IsClosed ps) (rank : String → ℕ) (ranked : IsRanked ps rank) where
    -- By induction on the rank: what waits for nothing is in the final order.
    all_loaded :
        (deg : Degrees) (order : List String)
        → Inv ps deg [] order
        → (n : ℕ) (x : String) (p : Metadata) → rank x < n
        → lookup x ps ≡ some p
        → 0 < count x order
    unfolding count
    all_loaded deg order inv zero x p h e = absurd (omega arith)
    all_loaded deg order inv (suc n) x p h e = ground (
      arith,
      inv.once x p e,
      pending-All order p.dependencies (
          below ps rank (rank x) order p.dependencies
            (λ d q k. all_loaded deg order inv n d q (omega arith))
            (lookup-All (λ q. Known ps q.1.dependencies) ps x p closed e) (ranked x p e)),
    )

    count-final :
        (deg : Degrees) (order : List String)
        → Inv ps deg [] order
        → (x : String) → count x order ≡ count x (keys ps)
    count-final deg order inv x = elim (Option-cases (lookup x ps)) [
      | inl e ↦ omega (arith, final_count-le deg order inv x, keys-none ps x e)
      | inr (p, e) ↦ omega (
        arith,
        all_loaded deg order inv (suc (rank x)) x p (omega arith) e,
        final_count-le deg order inv x,
        keyed x,
      )
    ]

    -- For a sort that permutes the queue and a registry with distinct ids: if every dependency is
    -- registered, and some rank of the ids falls from each plugin to its dependencies (there is no
    -- cycle), then `topoSort` returns an order.
    pub topo_sort-total : (order : List String) × (topo_sort sort ps ≡ ok order)
    unfolding topo_sort drain_edges
    topo_sort-total = elim (Result-cases (build ps ps (record { in_deg = []; adj = [] }))) [
      | inl (g, e) ↦
          let (order, deg, k, inv) = loop_result g e in
          let same_length : length order ≡ length ps =
            length-eq_of_count order (keys ps) (count-final deg order inv) ∙ length-keys ps in
          (order, ground (arith, k))
      | inr (x, e) ↦
          let (i, d, a, b, c) = build-unknown ps ps (record { in_deg = []; adj = [] }) e in
          absurd (no_unknown ps ps i d closed b c)
    ]
