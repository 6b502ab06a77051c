-- ===== src/Plugin/Topo/Begun.antt =====
-- Where the main loop of `topoSort` begins, and its fuel.
use pdai_server_panel.Common.{
  ℕ, zero, suc, ◌+◌, ◌≤◌, ◌<◌, String, none, some, List, [], ◌∷◌, ◌++◌, ◌==◌, ◌≡◌, refl, sym, ap,
  ◌∙◌, if◌then◌else◌, arith, Option-cases, inl, inr, lookup, pos, is_zero, length, length-append,
  ok,
}
use pdai_server_panel.Plugin.Topo.{
  Metadata, Plugins, Entry, Edges, get_adj, build, ready, drain, release,
}
use pdai_server_panel.Plugin.Topo.Count.{count, count-append, ids, length-le_of_count}
use pdai_server_panel.Plugin.Topo.Built.{keys, edges, degree}
use pdai_server_panel.Plugin.Topo.Tables.{build-adj, build-keep, build-deg}
use pdai_server_panel.Plugin.Topo.Start.{
  Degrees, HasUniqueNames, build-HasUniqueNames, zero_entry, count-ready,
}
use pdai_server_panel.Plugin.Topo.Loop.{pending, Inv, IsAdj, Permutes, count-sort, step-Inv}

-- A Go map holds each key once.
abbrev pub IsKeyed : Plugins → Type 0
IsKeyed ps = (x : String) → count x (keys ps) ≤ 1

pub keys-some :
    (ps : Plugins) (x : String) (p : Metadata) → lookup x ps ≡ some p → 0 < count x (keys ps)
unfolding lookup count
keys-some [] x p h = cc
keys-some ((id, q) ∷ ps) x p h = ground (arith, keys-some ps x p)

pub keys-none : (ps : Plugins) (x : String) → lookup x ps ≡ none → count x (keys ps) ≡ 0
unfolding lookup count
keys-none [] x h = refl
keys-none ((id, q) ∷ ps) x h = ground (arith, keys-none ps x)

edges-absent : (ps : Plugins) (x d : String) → count x (keys ps) ≡ 0 → edges ps x d ≡ 0
unfolding edges count
edges-absent [] x d h = refl
edges-absent ((id, p) ∷ ps) x d h = ground (arith, edges-absent ps x d)

degree-absent : (ps : Plugins) (x : String) → count x (keys ps) ≡ 0 → degree ps x ≡ 0
unfolding degree count
degree-absent [] x h = refl
degree-absent ((id, p) ∷ ps) x h = ground (arith, degree-absent ps x)

edges-some :
    (ps : Plugins) (x d : String) (p : Metadata)
    → count x (keys ps) ≤ 1
    → lookup x ps ≡ some p
    → edges ps x d ≡ count d p.dependencies
unfolding edges count lookup
edges-some [] x d p k h = cc
edges-some ((id, q) ∷ ps) x d p k h = ground (arith, edges-absent ps x d, edges-some ps x d p)

degree-some :
    (ps : Plugins) (x : String) (p : Metadata)
    → count x (keys ps) ≤ 1
    → lookup x ps ≡ some p
    → degree ps x ≡ length p.dependencies
unfolding degree count lookup
degree-some [] x p k h = cc
degree-some ((id, q) ∷ ps) x p k h = ground (arith, degree-absent ps x, degree-some ps x p)

pending-start : (ds : List String) → pending [] ds ≡ length ds
unfolding pending count
pending-start [] = refl
pending-start (d ∷ ds) = omega (arith, pending-start ds)

is_zero-pos : (n : ℕ) → is_zero (pos n) ≡ (n == 0)
is_zero-pos zero = refl
is_zero-pos (suc n) = ground arith

module _ (sort : List Entry → List Entry) (permutes : Permutes sort) (ps : Plugins)
    (keyed : IsKeyed ps) where
  module _ (g : Edges) (built : build ps ps (record { in_deg = []; adj = [] }) ≡ ok g) where
    pub start-IsAdj : IsAdj ps g.adj
    unfolding get_adj lookup count
    start-IsAdj = record {
      listed = λ x d p h. omega (
        arith,
        build-adj ps ps (record { in_deg = []; adj = [] }) x d built,
        edges-some ps x d p (keyed x) h,
      );
      registered = λ x d h. omega (
        arith,
        build-adj ps ps (record { in_deg = []; adj = [] }) x d built,
        edges-absent ps x d (keys-none ps x h),
      );
    }

    start_degree :
        (x : String) (p : Metadata)
        → lookup x ps ≡ some p
        → lookup x g.in_deg ≡ some (pos (length p.dependencies))
    unfolding lookup
    start_degree x p h =
        build-deg ps ps (record { in_deg = []; adj = [] }) x refl
          (omega (arith, keyed x, keys-some ps x p h)) built
        ∙ ap (λ m. some (pos m)) (degree-some ps x p (keyed x) h)

    start_unique : HasUniqueNames g.in_deg
    unfolding lookup count
    start_unique = build-HasUniqueNames ps ps (record { in_deg = []; adj = [] }) (λ x. refl) built

    start-count :
        (x : String) → count x (ids (sort (ready ps g.in_deg))) ≡ zero_entry (lookup x g.in_deg)
    start-count x =
        count-sort sort permutes ps g.adj start-IsAdj x (ready ps g.in_deg)
        ∙ count-ready ps g.in_deg x (ground (arith, start_unique x))

    pub start-Inv : Inv ps g.in_deg (sort (ready ps g.in_deg)) []
    unfolding lookup count
    start-Inv = record {
      degrees =
          λ x p h. start_degree x p h ∙ ap (λ m. some (pos m)) (sym (pending-start p.dependencies));
      once = λ x p h.
          let c : count x (ids (sort (ready ps g.in_deg)))
              ≡ (if is_zero (pos (length p.dependencies)) then 1 else 0) =
            start-count x ∙ ap zero_entry (start_degree x p h) in
          rw pending-start (ground (arith, c, is_zero-pos (length p.dependencies)));
      only = λ x h.
          let c : count x (ids (sort (ready ps g.in_deg))) ≡ 0 =
            start-count x
            ∙ ap zero_entry
                (build-keep ps ps (record { in_deg = []; adj = [] }) x (keys-none ps x h) built) in
          omega arith;
      sound = tt;
    }

  -- There is room in the order for the head of the queue.
  room :
      (deg : Degrees) (cur : Entry) (queue : List Entry) (order : List String)
      → Inv ps deg (cur ∷ queue) order
      → length order < length (keys ps)
  unfolding count
  room deg cur queue order inv = omega (
    arith,
    length-append {0} order (cur.id ∷ []),
    length-le_of_count (order ++ cur.id ∷ []) (keys ps) (λ x. elim (Option-cases (lookup x ps)) [
      | inl e ↦ omega (arith, inv.only x e, count-append x order (cur.id ∷ []))
      | inr (p, e) ↦
          ground (arith, inv.once x p e, count-append x order (cur.id ∷ []), keys-some ps x p e)
    ]),
  )

  -- With fuel for each plugin that is not in the order yet, the loop ends with an empty queue.
  pub drain_total :
      (adj : List (String × List String))
      → IsAdj ps adj
      → (fuel : ℕ) (deg : Degrees) (queue : List Entry) (order : List String)
      → Inv ps deg queue order
      → length (keys ps) ≤ fuel + length order
      → (final : List String) × (deg' : Degrees) × (drain sort fuel ps adj deg queue order
          ≡ some final)
        × Inv ps deg' [] final
  unfolding drain
  drain_total adj a zero deg [] order inv h = (order, deg, refl, inv)
  drain_total adj a (suc fuel) deg [] order inv h = (order, deg, refl, inv)
  drain_total adj a zero deg (cur ∷ queue) order inv h =
      absurd (omega (arith, room deg cur queue order inv))
  drain_total adj a (suc fuel) deg (cur ∷ queue) order inv h =
      drain_total adj a fuel (release ps (get_adj cur.id adj) deg queue).0
        (sort (release ps (get_adj cur.id adj) deg queue).1) (order ++ cur.id ∷ [])
        (step-Inv sort permutes ps adj a deg cur queue order inv)
        (omega (arith, length-append {0} order (cur.id ∷ [])))
