-- ===== src/Plugin/Manager/Invariant.antt =====
-- What holds of the manager between two calls.
use pdai_server_panel.Common.{String, true, not, some, ◌≡◌, lookup, is_some, All}
use pdai_server_panel.Plugin.Topo.{Metadata}
use pdai_server_panel.Plugin.Manager.{Manager, is_enabled}

-- The guard blocks exactly the registered plugins that are not enabled.
abbrev pub IsGuarded : Manager → Type 0
IsGuarded m =
    (id : String) (p : Metadata)
    → lookup id m.plugins ≡ some p
    → is_some (lookup id m.disabled) ≡ not (is_enabled m id)

-- The dependencies of an enabled plugin are enabled.
abbrev pub HasDependencies : Manager → Type 0
HasDependencies m =
    (id : String) (p : Metadata)
    → lookup id m.plugins ≡ some p
    → is_enabled m id ≡ true
    → All (λ d. is_enabled m d ≡ true) p.dependencies

pub record IsConsistent (m : Manager) : Type 0 where
  pub guarded : IsGuarded m
  pub supported : HasDependencies m
