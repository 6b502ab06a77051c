-- ===== src/Plugin/Manager/Initialised.antt =====
-- `InitAll` and the guard.
use mathlib.Core.Path.{subst}
use pdai_server_panel.Common.{
  String, Bool, true, false, not, ◌&&◌, ◌||◌, some, List, [], ◌∷◌, ◌≡◌, refl, sym, ap, ◌∙◌, arith,
  eq_iff, lookup, lookup-insert, is_some, ok, err, Result-cases, inl, inr, ltb,
}
use pdai_server_panel.Plugin.Topo.{Plugins, Entry, topo_sort}
use pdai_server_panel.Plugin.Topo.Count.{count}
use pdai_server_panel.Plugin.Topo.Loop.{Permutes}
use pdai_server_panel.Plugin.Topo.Built.{keys}
use pdai_server_panel.Plugin.Topo.Begun.{IsKeyed, keys-some}
use pdai_server_panel.Plugin.Topo.Sorted.{topo_sort-DepsFirst}
use pdai_server_panel.Plugin.Manager.{
  Manager, Env, ManagerError, is_enabled, init_one, init_loop, init_ordered, init_all,
  seed_default_states,
}
use pdai_server_panel.Plugin.Manager.Invariant.{IsGuarded}

module _ (env : Env) (id : String) (ids : List String) (m : Manager) where
  loop-ok :
      (n : Manager) → init_one env id m ≡ ok n → init_loop env (id ∷ ids) m ≡ init_loop env ids n
  unfolding init_loop
  loop-ok n h = rw (h, init_loop) refl

  loop-err : (e : ManagerError) → init_one env id m ≡ err e → init_loop env (id ∷ ids) m ≡ err e
  unfolding init_loop
  loop-err e h = rw (h, init_loop) refl

-- What one turn, and the whole loop, leave: the same plugins and rows, and more blocked plugins.
record IsMarked (ids : List String) (m n : Manager) : Type 0 where
  plugins : n.plugins ≡ m.plugins
  enabled : (j : String) → is_enabled n j ≡ is_enabled m j
  blocked :
      (j : String)
      → is_some (lookup j n.disabled)
        ≡ (is_some (lookup j m.disabled) || (ltb 0 (count j ids) && not (is_enabled m j)))

init_one-IsMarked :
    (env : Env) (id : String) (m n : Manager) → init_one env id m ≡ ok n → IsMarked (id ∷ []) m n
unfolding init_one is_enabled count
init_one-IsMarked env id m n h = record {
  plugins = ground arith;
  enabled = λ j. ground arith;
  blocked = λ j. ground (arith, lookup-insert id j true m.disabled, eq_iff id j);
}

init_loop-IsMarked :
    (env : Env) (ids : List String) (m n : Manager) → init_loop env ids m ≡ ok n → IsMarked ids m n
unfolding init_loop count
init_loop-IsMarked env [] m n h =
    let e : m ≡ n = ground arith in
    subst (IsMarked [] m) e
      (record { plugins = refl; enabled = λ j. refl; blocked = λ j. ground arith })
init_loop-IsMarked env (id ∷ ids) m n h = elim (Result-cases (init_one env id m)) [
  | inr (e, k) ↦ cc (loop-err env id ids m e k)
  | inl (m', k) ↦
      let a = init_one-IsMarked env id m m' k in
      let b = init_loop-IsMarked env ids m' n (sym (loop-ok env id ids m m' k) ∙ h) in
      record {
        plugins = b.plugins ∙ a.plugins;
        enabled = λ j. b.enabled j ∙ a.enabled j;
        blocked = λ j. ground (arith, a.blocked j, b.blocked j, a.enabled j);
      }
]

seed-same :
    (m : Manager)
    → ((seed_default_states m).plugins ≡ m.plugins)
      × ((seed_default_states m).disabled ≡ m.disabled)
unfolding seed_default_states
seed-same m = ground arith

lookup-clear : (j : String) (d : List (String × Bool)) → d ≡ [] → is_some (lookup j d) ≡ false
unfolding lookup
lookup-clear j d h = ap (λ e. is_some (lookup j e)) h

-- A loop over all the plugins that starts with none blocked.
marked-IsGuarded :
    (order : List String) (start n : Manager)
    → IsMarked order start n
    → ((j : String) → count j order ≡ count j (keys start.plugins))
    → start.disabled ≡ []
    → IsGuarded n
marked-IsGuarded order start n a counts clear j p found =
    let found' : lookup j start.plugins ≡ some p =
      subst (λ (ps : Plugins). lookup j ps ≡ some p) a.plugins found in
    ground (
      arith,
      a.blocked j,
      a.enabled j,
      lookup-clear j start.disabled clear,
      counts j,
      keys-some start.plugins j p found',
    )

module _ (sort : List Entry → List Entry) (permutes : Permutes sort) where
  -- For a sort that permutes the queue and a registry with distinct ids:
  -- after a successful `InitAll` of a manager that blocks nothing yet, the guard blocks exactly the
  -- registered plugins that are not enabled.
  pub init_all-IsGuarded :
      (env : Env) (m n : Manager)
      → IsKeyed m.plugins
      → m.disabled ≡ []
      → init_all sort env m ≡ ok n
      → IsGuarded n
  unfolding init_all init_ordered
  init_all-IsGuarded env m n keyed clear h = elim (Result-cases (topo_sort sort m.plugins)) [
    | inr (e, k) ↦ absurd (ground arith)
    | inl (order, k) ↦
        let start : Manager = record m { order = order } in
        marked-IsGuarded order (seed_default_states start) n
          (init_loop-IsMarked env order (seed_default_states start) n (ground arith))
          (λ j.
            (topo_sort-DepsFirst sort permutes m.plugins keyed order k).0 j
            ∙ ap (λ ps. count j (keys ps)) (sym (seed-same start).0))
          ((seed-same start).1 ∙ clear)
  ]
