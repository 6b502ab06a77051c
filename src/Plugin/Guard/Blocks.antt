-- ===== src/Plugin/Guard/Blocks.antt =====
-- The guard and the state of the plugins.
use pdai_server_panel.Common.{
  String, true, false, not, ◌&&◌, some, List, [], ◌∷◌, ◌≡◌, ◌=ˢ◌, lookup, ok, refl, Bool-cases, inl,
  inr,
}
use pdai_server_panel.Plugin.Topo.{Metadata, Entry}
use pdai_server_panel.Plugin.Topo.Loop.{Permutes}
use pdai_server_panel.Plugin.Topo.Begun.{IsKeyed}
use pdai_server_panel.Plugin.Manager.{Manager, Env, is_enabled, init_all}
use pdai_server_panel.Plugin.Manager.Invariant.{IsGuarded}
use pdai_server_panel.Plugin.Manager.Initialised.{init_all-IsGuarded}
use pdai_server_panel.Plugin.Guard.{is_management, extract_plugin_id, is_blocked}

module _ (id : String) (rest : List String) (other : (id =ˢ "frontend-manifests") ≡ false) where
  extract_plugin_id-plugin :
      is_management rest ≡ false → extract_plugin_id ("api" ∷ "plugins" ∷ id ∷ rest) ≡ id
  unfolding extract_plugin_id
  extract_plugin_id-plugin plain = rw (other, plain) refl

  extract_plugin_id-management :
      is_management rest ≡ true → extract_plugin_id ("api" ∷ "plugins" ∷ id ∷ rest) ≡ ""
  unfolding extract_plugin_id
  extract_plugin_id-management manages = rw (other, manages) refl

  guarded-is_blocked :
      (m : Manager) (p : Metadata)
      → IsGuarded m
      → lookup id m.plugins ≡ some p
      → (id =ˢ "") ≡ false
      → is_blocked m ("api" ∷ "plugins" ∷ id ∷ rest)
        ≡ (not (is_management rest) && not (is_enabled m id))
  unfolding is_blocked
  guarded-is_blocked m p g found named = elim (Bool-cases (is_management rest)) [
    | inl manages ↦ rw (extract_plugin_id-management manages, manages) refl
    | inr plain ↦ rw (extract_plugin_id-plugin plain, plain, named) (g id p found)
  ]

-- For a sort that permutes the queue and a registry with distinct ids: after a successful `InitAll`
-- of a manager that blocks nothing yet, a request below /api/plugins/{id}/ of a registered plugin,
-- with an id that is neither empty nor `frontend-manifests`, is blocked exactly when the plugin is
-- not enabled and the next piece is not `enable`, `disable`, `sidebar` or `install`.
pub is_blocked-init_all :
    (sort : List Entry → List Entry)
    → Permutes sort
    → (env : Env) (m n : Manager) → IsKeyed m.plugins
    → m.disabled ≡ []
    → init_all sort env m ≡ ok n
    → (id : String) (p : Metadata) (rest : List String) → lookup id n.plugins ≡ some p
    → (id =ˢ "") ≡ false
    → (id =ˢ "frontend-manifests") ≡ false
    → is_blocked n ("api" ∷ "plugins" ∷ id ∷ rest)
      ≡ (not (is_management rest) && not (is_enabled n id))
is_blocked-init_all sort permutes env m n keyed clear boots id p rest found named other =
    guarded-is_blocked id rest other n p
      (init_all-IsGuarded sort permutes env m n keyed clear boots) found named
