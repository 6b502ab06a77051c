-- ===== src/Plugin/Manager.antt =====
-- internal/plugin/manager.go: the manager's state and its operations. `calls` records the calls of
-- plugin code, oldest first. The routers, the contexts and the log lines are left out.
-- `Env` is what the manager does not decide: whether plugin code and the database succeed.
pub mod Invariant
pub mod Enabled
pub mod Disabled
pub mod Initialised
use mathlib.Core.List.{reverse}
use pdai_server_panel.Common.{
  String, Bool, true, false, not, ◌&&◌, ◌||◌, Option, none, some, List, [], ◌∷◌, ◌++◌,
  if◌then◌else◌, ◌=ˢ◌, lookup, insert, delete, is_some, Result, ok, err, any,
}
use pdai_server_panel.Plugin.Topo.{Metadata, Plugins, Entry, TopoError, topo_sort}

-- A row of `plugin_states`; a column may be NULL.
pub record PluginState : Type 0 where
  pub enabled : Option Bool
  pub show_in_sidebar : Option Bool

pub data Call : Type 0 where
  init start stop : String → Call

pub record Manager : Type 0 where
  pub plugins : Plugins
  pub order : List String
  pub disabled : List (String × Bool)
  pub states : List (String × PluginState)
  pub calls : List Call

pub record Env : Type 0 where
  pub init_ok : String → Bool
  pub start_ok : String → Bool
  pub stop_ok : String → Bool
  pub mkdir_ok : String → Bool
  -- `setState` and `SetSidebarVisible` reach the database
  pub save_ok : Bool
  pub migrate_ok : Bool

pub data ManagerError : Type 0 where
  empty_id store_failed migrate_failed : ManagerError
  already_registered not_found dependency_disabled start_failed init_failed mkdir_failed :
      String → ManagerError
  needed_by : String → ManagerError
  unresolved : TopoError → ManagerError

abbrev pub or_false : Option Bool → Bool
or_false none = false
or_false (some b) = b

abbrev pub or_true : Option Bool → Bool
or_true none = true
or_true (some b) = b

abbrev pub row_enabled : Option PluginState → Bool
row_enabled none = false
row_enabled (some s) = or_false s.enabled

abbrev pub row_visible : Option PluginState → Bool
row_visible none = true
row_visible (some s) = or_true s.show_in_sidebar

unfoldable pub is_enabled : Manager → String → Bool
is_enabled m id = row_enabled (lookup id m.states)

unfoldable pub is_sidebar_visible : Manager → String → Bool
is_sidebar_visible m id = row_visible (lookup id m.states)

unfoldable pub register : Metadata → Manager → Result ManagerError Manager
register meta m =
    if meta.id =ˢ ""
    then err empty_id
    else if is_some (lookup meta.id m.plugins)
    then err (already_registered meta.id)
    else ok (record m { plugins = insert meta.id meta m.plugins })

-- The row that `FirstOrCreate` leaves: a column that a new row is not given has its default, true.
abbrev pub assign_enabled : Bool → Option PluginState → PluginState
assign_enabled b none = record { enabled = some b; show_in_sidebar = some true }
assign_enabled b (some s) = record s { enabled = some b }

abbrev pub assign_visible : Bool → Option PluginState → PluginState
assign_visible b none = record { enabled = some true; show_in_sidebar = some b }
assign_visible b (some s) = record s { show_in_sidebar = some b }

unfoldable pub set_state : Env → String → Bool → Manager → Result ManagerError Manager
set_state env id b m =
    if env.save_ok
    then ok (record m { states = insert id (assign_enabled b (lookup id m.states)) m.states })
    else err store_failed

unfoldable pub set_sidebar_visible : Env → String → Bool → Manager → Result ManagerError Manager
set_sidebar_visible env id b m =
    if not (is_some (lookup id m.plugins))
    then err (not_found id)
    else if env.save_ok
    then ok (record m { states = insert id (assign_visible b (lookup id m.states)) m.states })
    else err store_failed

-- The first dependency that is not enabled.
unfoldable pub missing_dependency : Manager → List String → Option String
missing_dependency m [] = none
missing_dependency m (dep ∷ deps) =
    let rest = missing_dependency m deps in if not (is_enabled m dep) then some dep else rest

-- `Start` failing is logged and no more; the call is made either way.
unfoldable pub enable_ready :
    Env → String → Result ManagerError Manager → Result ManagerError Manager
enable_ready env id (err e) = err e
enable_ready env id (ok m) =
    ok (record m { disabled = delete id m.disabled; calls = m.calls ++ start id ∷ [] })

unfoldable pub enable_found : Env → String → Option Metadata → Manager → Result ManagerError Manager
enable_found env id none m = err (not_found id)
enable_found env id (some p) m =
    if is_enabled m id then ok m else elim (missing_dependency m p.dependencies) [
      | some dep ↦ err (dependency_disabled dep)
      | none ↦ enable_ready env id (set_state env id true m)
    ]

unfoldable pub enable : Env → String → Manager → Result ManagerError Manager
enable env id m = enable_found env id (lookup id m.plugins) m

-- The first enabled plugin, other than `id`, that depends on it.
unfoldable pub dependent : Manager → String → Plugins → Option String
dependent m id [] = none
dependent m id ((other, p) ∷ rest) =
    let more = dependent m id rest in
    if not (other =ˢ id) && is_enabled m other && any (λ d. d =ˢ id) p.dependencies
    then some other
    else more

-- The manager after the call comes back beside the error too: what `Disable` changes before the
-- write to the database stays changed when the write fails.
abbrev pub stopped : String → Manager → Manager
stopped id m = record m { disabled = insert id true m.disabled; calls = m.calls ++ stop id ∷ [] }

unfoldable pub after_save : Manager → Result ManagerError Manager → Manager × Option ManagerError
after_save m (err e) = (m, some e)
after_save m (ok m') = (m', none)

unfoldable pub disable_found :
    Env → String → Option Metadata → Manager → Manager × Option ManagerError
disable_found env id none m = (m, some (not_found id))
disable_found env id (some p) m =
    if not (is_enabled m id) then (m, none) else elim (dependent m id m.plugins) [
      | some other ↦ (m, some (needed_by other))
      | none ↦ after_save (stopped id m) (set_state env id false (stopped id m))
    ]

unfoldable pub disable : Env → String → Manager → Manager × Option ManagerError
disable env id m = disable_found env id (lookup id m.plugins) m

-- `disabledByDefault` of `seedDefaultStates`
unfoldable pub disabled_by_default : String → Bool
disabled_by_default id =
    id =ˢ "ai"
    || id =ˢ "appstore"
    || id =ˢ "database"
    || id =ˢ "docker"
    || id =ˢ "filemanager"
    || id =ˢ "firewall"
    || id =ˢ "cronjob"
    || id =ˢ "supervisor"

unfoldable pub seed_rows : Plugins → List (String × PluginState) → List (String × PluginState)
seed_rows [] rows = rows
seed_rows ((id, p) ∷ rest) rows = seed_rows rest (
    insert id
      (record { enabled = some (not (disabled_by_default id)); show_in_sidebar = some true }) rows)

abbrev pub no_rows : List (String × PluginState) → Bool
no_rows [] = true
no_rows (r ∷ rs) = false

unfoldable pub seed_default_states : Manager → Manager
seed_default_states m =
    if no_rows m.states then record m { states = seed_rows m.plugins m.states } else m

-- One plugin's turn in the loop of `InitAll`.
unfoldable pub init_one : Env → String → Manager → Result ManagerError Manager
init_one env id m =
    let on = is_enabled m id in
    let marked = if on then m else record m { disabled = insert id true m.disabled } in
    if not (env.mkdir_ok id)
    then err (mkdir_failed id)
    else if not (env.init_ok id) && on
    then err (init_failed id)
    else ok (record marked { calls = marked.calls ++ init id ∷ [] })

unfoldable pub init_loop : Env → List String → Manager → Result ManagerError Manager
init_loop env [] m = ok m
init_loop env (id ∷ ids) m = elim (init_one env id m) [
  | ok m' ↦ init_loop env ids m'
  | err e ↦ err e
]

module _ (sort : List Entry → List Entry) where
  unfoldable pub init_ordered :
      Env → Manager → Result TopoError (List String) → Result ManagerError Manager
  init_ordered env m (err e) = err (unresolved e)
  init_ordered env m (ok order) =
      if not env.migrate_ok
      then err migrate_failed
      else init_loop env order (seed_default_states (record m { order = order }))

  unfoldable pub init_all : Env → Manager → Result ManagerError Manager
  init_all env m = init_ordered env m (topo_sort sort m.plugins)

unfoldable pub start_loop : Env → List String → Manager → Result ManagerError Manager
start_loop env [] m = ok m
start_loop env (id ∷ ids) m =
    let next = record m { calls = m.calls ++ start id ∷ [] } in
    elim (is_enabled m id) [
      | false ↦ start_loop env ids m
      | true ↦ elim (env.start_ok id) [
        | true ↦ start_loop env ids next
        | false ↦ err (start_failed id)
      ]
    ]

unfoldable pub start_all : Env → Manager → Result ManagerError Manager
start_all env m = start_loop env m.order m

-- `Stop` failing is logged and no more.
unfoldable pub stop_loop : List String → Manager → Manager
stop_loop [] m = m
stop_loop (id ∷ ids) m =
    stop_loop ids (if is_enabled m id then record m { calls = m.calls ++ stop id ∷ [] } else m)

unfoldable pub stop_all : Manager → Manager
stop_all m = stop_loop (reverse m.order) m
