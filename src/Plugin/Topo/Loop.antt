-- ===== src/Plugin/Topo/Loop.antt =====
-- The main loop of `topoSort`: its invariant.
use mathlib.Core.List.{append-nil, append_assoc}
use mathlib.Core.List.{Perm}
use pdai_server_panel.Common.{
  ℕ, ◌+◌, ◌-◌, ◌<◌, String, ◌&&◌, none, some, List, [], ◌∷◌, ◌++◌, ◌==◌, ltb, ◌≡◌, ap, ◌∙◌,
  if◌then◌else◌, arith, eq_iff, Option-cases, inl, inr, lookup, pos, All,
}
use pdai_server_panel.Plugin.Topo.{Metadata, Plugins, Entry, get_adj, release}
use pdai_server_panel.Plugin.Topo.Count.{same, same_self, count, count-append, ids, Perm-count}
use pdai_server_panel.Plugin.Topo.Released.{release-other, release-waiting}
use pdai_server_panel.Plugin.Topo.Start.{Degrees}

-- How many of the dependencies are not loaded yet.
unfoldable pub pending : List String → List String → ℕ
pending order [] = 0
pending order (d ∷ ds) = (if count d order == 0 then 1 else 0) + pending order ds

pending-snoc :
    (order ds : List String) (cur : String)
    → count cur order ≡ 0
    → pending order ds ≡ pending (order ++ cur ∷ []) ds + count cur ds
unfolding pending count
pending-snoc order [] cur h = omega arith
pending-snoc order (d ∷ ds) cur h = ground (
  arith,
  pending-snoc order ds cur h,
  count-append d order (cur ∷ []),
  eq_iff cur d,
  eq_iff d cur,
)

-- Each plugin stands behind all that it depends on.
abbrev pub DepsFirst : Plugins → List String → List String → Type 0
DepsFirst ps seen [] = Unit
DepsFirst ps seen (x ∷ xs) =
    ((p : Metadata) → lookup x ps ≡ some p → All (λ d. 0 < count d seen) p.dependencies)
    × DepsFirst ps (seen ++ x ∷ []) xs

pending_none : (order ds : List String) → pending order ds ≡ 0 → All (λ d. 0 < count d order) ds
unfolding pending
pending_none order [] h = tt
pending_none order (d ∷ ds) h = (ground arith, pending_none order ds (omega arith))

DepsFirst-snoc :
    (ps : Plugins) (seen xs : List String) (x : String)
    → DepsFirst ps seen xs
    → ((p : Metadata) → lookup x ps ≡ some p → All (λ d. 0 < count d (seen ++ xs)) p.dependencies)
    → DepsFirst ps seen (xs ++ x ∷ [])
DepsFirst-snoc ps seen [] x f h = (rw (append-nil seen) at h, tt)
DepsFirst-snoc ps seen (y ∷ xs) x (f, g) h =
    (f, DepsFirst-snoc ps (seen ++ y ∷ []) xs x g (rw (append_assoc seen (y ∷ []) xs) h))

-- What holds whenever the loop tests its queue: the degrees count what is pending, and a plugin
-- stands in the order or in the queue, once, exactly when nothing is pending for it.
pub record Inv (ps : Plugins) (deg : Degrees) (queue : List Entry) (order : List String)
    : Type 0 where
  pub degrees :
      (x : String) (p : Metadata)
      → lookup x ps ≡ some p
      → lookup x deg ≡ some (pos (pending order p.dependencies))
  pub once :
      (x : String) (p : Metadata)
      → lookup x ps ≡ some p
      → count x order + count x (ids queue) ≡ (if pending order p.dependencies == 0 then 1 else 0)
  pub only : (x : String) → lookup x ps ≡ none → count x order + count x (ids queue) ≡ 0
  pub sound : DepsFirst ps [] order

-- The table of dependants: a plugin stands in a row as often as it names the row's plugin.
pub record IsAdj (ps : Plugins) (adj : List (String × List String)) : Type 0 where
  pub listed :
      (x d : String) (p : Metadata)
      → lookup x ps ≡ some p
      → count x (get_adj d adj) ≡ count d p.dependencies
  pub registered : (x d : String) → lookup x ps ≡ none → count x (get_adj d adj) ≡ 0

-- What is assumed of `sort.Slice`: it permutes the queue.
abbrev pub Permutes : (List Entry → List Entry) → Type 0
Permutes sort = (q : List Entry) → Perm (sort q) q

module _ (sort : List Entry → List Entry) (permutes : Permutes sort) (ps : Plugins)
    (adj : List (String × List String)) (is_adj : IsAdj ps adj) where
  pub count-sort : (x : String) (q : List Entry) → count x (ids (sort q)) ≡ count x (ids q)
  count-sort x q = Perm-count x (permutes q)

  module _ (deg : Degrees) (cur : Entry) (queue : List Entry) (order : List String)
      (inv : Inv ps deg (cur ∷ queue) order) where
    abbrev pub row : List String
    row = get_adj cur.id adj

    -- The head of the queue is registered, waits for nothing and is not in the order yet.
    head_ready :
        (p : Metadata)
        → lookup cur.id ps ≡ some p
        → (pending order p.dependencies ≡ 0) × (count cur.id order ≡ 0)
    unfolding count
    head_ready p h = ground (arith, inv.once cur.id p h, same_self cur.id)

    head_new : count cur.id order ≡ 0
    unfolding count
    head_new = elim (Option-cases (lookup cur.id ps)) [
      | inl e ↦ omega (arith, inv.only cur.id e)
      | inr (p, e) ↦ (head_ready p e).1
    ]

    count-next : (x : String) → count x (order ++ cur.id ∷ []) ≡ count x order + same x cur.id
    unfolding count
    count-next x = rw count-append (omega arith)

    abbrev pub next_deg : Degrees
    next_deg = (release ps row deg queue).0

    abbrev pub next_queue : List Entry
    next_queue = (release ps row deg queue).1

    module _ (x : String) (p : Metadata) (h : lookup x ps ≡ some p) where
      released :
          (lookup x next_deg ≡ some (pos (pending order p.dependencies - count x row)))
          × (count x (ids next_queue)
              ≡ count x (ids queue)
                + (if ltb 0 (count x row) && pending order p.dependencies == count x row
                    then 1
                    else 0))
      released =
          release-waiting ps row deg queue x (pending order p.dependencies) (inv.degrees x p h) (
            omega (
              arith,
              is_adj.listed x cur.id p h,
              pending-snoc order p.dependencies cur.id head_new,
            ))

      next-degrees : lookup x next_deg ≡ some (pos (pending (order ++ cur.id ∷ []) p.dependencies))
      next-degrees =
          released.0
          ∙ ap (λ m. some (pos m))
              (omega (
                arith,
                is_adj.listed x cur.id p h,
                pending-snoc order p.dependencies cur.id head_new,
              ))

      next-once :
          count x (order ++ cur.id ∷ []) + count x (ids (sort next_queue))
          ≡ (if pending (order ++ cur.id ∷ []) p.dependencies == 0 then 1 else 0)
      unfolding count
      next-once = ground (
        arith,
        count-next x,
        count-sort x next_queue,
        released,
        inv.once x p h,
        is_adj.listed x cur.id p h,
        pending-snoc order p.dependencies cur.id head_new,
      )

    pub step-Inv : Inv ps next_deg (sort next_queue) (order ++ cur.id ∷ [])
    unfolding count
    step-Inv = record {
      degrees = next-degrees;
      once = next-once;
      only = λ x e. omega (
        arith,
        count-next x,
        count-sort x next_queue,
        (release-other ps row deg queue x (is_adj.registered x cur.id e)).1,
        inv.only x e,
      );
      sound =
          DepsFirst-snoc ps [] order cur.id inv.sound
            (λ p h. pending_none order p.dependencies (head_ready p h).0);
    }
