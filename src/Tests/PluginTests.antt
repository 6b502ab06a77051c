-- ===== src/Tests/PluginTests.antt =====
-- internal/plugin/manager.go at a registry of two plugins, of which one depends on the other.
use mathlib.Core.Path.{subst, sym, ap}
use mathlib.Core.List.{foldl}
use mathlib.Core.List.Perm as Permutation
use pdai_server_panel.Common.{
  not, ◌&&◌, length, ◌++◌, ◌+◌, ◌*◌, ℕ, ◌<◌, ◌≡◌, ◌≢◌, String, true, false, refl, none, some, List,
  [], ◌∷◌, arith, eq_iff, Any, ok, err, pos, lookup, insert, delete, is_some, inl, inr, ◌⊎◌,
  if◌then◌else◌, ◌=ˢ◌,
}
use pdai_server_panel.Plugin.Topo.{
  Metadata, Plugins, Entry, unknown_dependency, out_of_fuel, topo_sort, drain_edges, finish, drain,
  release, ready, build, add_node, add_deps, add_edge, get_deg, get_adj,
}
use pdai_server_panel.Plugin.Topo.Count.{count}
use pdai_server_panel.Plugin.Topo.Loop.{DepsFirst, Permutes}
use pdai_server_panel.Plugin.Topo.Begun.{IsKeyed}
use pdai_server_panel.Plugin.Topo.Sorted.{
  IsRanked, IsClosed, topo_sort-DepsFirst, topo_sort-unknown, topo_sort-fuel, topo_sort-total,
}
use pdai_server_panel.Plugin.EventBus.{
  Event, Handler, publish, new_event_bus, subscribe, collect, get_handlers, dispatch,
}
use pdai_server_panel.Plugin.EventBus.Dispatch.{
  subscribe_all, of_type, run_handler, publish-subscribe_all,
}
use pdai_server_panel.Plugin.Guard.{is_blocked, extract_plugin_id}
use pdai_server_panel.Plugin.Guard.Blocks.{is_blocked-init_all}
use pdai_server_panel.Plugin.Manager.{
  Manager, Env, store_failed, needed_by, start, init, is_enabled, enable, enable_found,
  enable_ready, missing_dependency, set_state, disable, disable_found, dependent, after_save,
  set_sidebar_visible, init_all, init_ordered, init_loop, init_one, seed_default_states, seed_rows,
  disabled_by_default,
}
use pdai_server_panel.Plugin.Manager.Invariant.{IsConsistent, IsGuarded, HasDependencies}
use pdai_server_panel.Plugin.Manager.Enabled.{enable-IsConsistent}
use pdai_server_panel.Plugin.Manager.Disabled.{disable-IsConsistent, disable_unsaved}
use pdai_server_panel.Plugin.Manager.Initialised.{init_all-IsGuarded}

abbrev docker : Metadata
docker = record { id = "docker"; dependencies = []; priority = pos 10 }

abbrev php : Metadata
php = record { id = "php"; dependencies = "docker" ∷ []; priority = pos 16 }

abbrev two : Plugins
two = ("php", php) ∷ ("docker", docker) ∷ []

-- Queues of at most one entry are sorted as they are.
abbrev leave : List Entry → List Entry
leave q = q

leave-Permutes : Permutes leave
leave-Permutes q = Permutation.refl q

two-IsKeyed : IsKeyed two
unfolding count
two-IsKeyed x = ground (arith, eq_iff "php" x, eq_iff "docker" x, eq_iff "php" "docker")

two_sorted : topo_sort leave two ≡ ok ("docker" ∷ "php" ∷ [])
unfolding topo_sort drain_edges finish drain release ready build add_node add_deps add_edge get_deg
    get_adj lookup insert
two_sorted = refl

topo_sort-DepsFirst_example :
    ((x : String) → count x ("docker" ∷ "php" ∷ []) ≡ count x ("php" ∷ "docker" ∷ []))
    × DepsFirst two [] ("docker" ∷ "php" ∷ [])
topo_sort-DepsFirst_example =
    topo_sort-DepsFirst leave leave-Permutes two two-IsKeyed ("docker" ∷ "php" ∷ []) two_sorted

abbrev rank : String → ℕ
rank x = if x =ˢ "php" then 1 else 0

two-IsClosed : IsClosed two
unfolding lookup
two-IsClosed = ((refl, tt), (tt, tt))

two-cases :
    (x : String) (p : Metadata)
    → lookup x two ≡ some p
    → ((x ≡ "php") × (p ≡ php)) ⊎ ((x ≡ "docker") × (p ≡ docker))
unfolding lookup
two-cases x p h = ground (arith, eq_iff "php" x, eq_iff "docker" x)

docker_lower : rank "docker" < rank "php"
docker_lower = omega arith

two-IsRanked : IsRanked two rank
unfolding lookup
two-IsRanked x p h = elim (two-cases x p h) [
  | inl (e, q) ↦ rw q (subst (λ y. rank "docker" < rank y) (sym e) docker_lower, tt)
  | inr (e, q) ↦ rw q tt
]

topo_sort-total_example : (order : List String) × (topo_sort leave two ≡ ok order)
topo_sort-total_example =
    topo_sort-total leave leave-Permutes two two-IsKeyed two-IsClosed rank two-IsRanked

topo_sort-fuel_example : topo_sort leave two ≢ err out_of_fuel
topo_sort-fuel_example = topo_sort-fuel leave leave-Permutes two two-IsKeyed

abbrev orphan : Plugins
orphan = ("php", php) ∷ []

orphan-IsKeyed : IsKeyed orphan
unfolding count
orphan-IsKeyed x = ground arith

orphan_refused : topo_sort leave orphan ≡ err (unknown_dependency "php" "docker")
unfolding topo_sort drain_edges build add_node add_deps lookup
orphan_refused = refl

topo_sort-unknown_example :
    (lookup "docker" orphan ≡ none)
    × Any (λ q. (q.0 ≡ "php") × (0 < count "docker" q.1.dependencies)) orphan
topo_sort-unknown_example =
    topo_sort-unknown leave leave-Permutes orphan orphan-IsKeyed "php" "docker" orphan_refused

abbrev working : Env
working = record {
  init_ok = λ x. true;
  start_ok = λ x. true;
  stop_ok = λ x. true;
  mkdir_ok = λ x. true;
  save_ok = true;
  migrate_ok = true;
}

abbrev fresh : Manager
fresh = record { plugins = two; order = []; disabled = []; states = []; calls = [] }

-- Only docker is enabled, and php is blocked.
abbrev running : Manager
running = record {
  plugins = two;
  order = "docker" ∷ "php" ∷ [];
  disabled = ("php", true) ∷ [];
  states =
      ("docker", record { enabled = some true; show_in_sidebar = some true })
      ∷ ("php", record { enabled = some false; show_in_sidebar = some true })
      ∷ [];
  calls = [];
}

running-IsGuarded : IsGuarded running
unfolding is_enabled lookup
running-IsGuarded x p h = elim (two-cases x p h) [ inl (e, q) ↦ rw e refl | inr (e, q) ↦ rw e refl ]

php_off : is_enabled running "php" ≡ false
unfolding is_enabled lookup
php_off = refl

running-HasDependencies : HasDependencies running
running-HasDependencies x p h on = elim (two-cases x p h) [
  | inl (e, q) ↦ cc (ap (is_enabled running) e, php_off)
  | inr (e, q) ↦ rw q tt
]

running-IsConsistent : IsConsistent running
running-IsConsistent = record { guarded = running-IsGuarded; supported = running-HasDependencies }

-- `running` after `Enable("php")`
abbrev both : Manager
both = record running {
  disabled = [];
  states =
      ("docker", record { enabled = some true; show_in_sidebar = some true })
      ∷ ("php", record { enabled = some true; show_in_sidebar = some true })
      ∷ [];
  calls = start "php" ∷ [];
}

php_enabled : enable working "php" running ≡ ok both
unfolding enable enable_found enable_ready missing_dependency is_enabled set_state lookup insert
    delete
php_enabled = refl

enable-IsConsistent_example :
    IsConsistent both
    × ((j : String) → is_enabled both j ≡ (if "php" =ˢ j then true else is_enabled running j))
enable-IsConsistent_example =
    enable-IsConsistent working "php" running both php_enabled running-IsConsistent

docker_disabled : (disable working "docker" running).1 ≡ none
unfolding disable disable_found dependent after_save is_enabled set_state lookup insert
docker_disabled = refl

disable-IsConsistent_example :
    IsConsistent (disable working "docker" running).0
    × ((j : String)
        → is_enabled (disable working "docker" running).0 j
          ≡ (if "docker" =ˢ j then false else is_enabled running j))
disable-IsConsistent_example =
    disable-IsConsistent working "docker" running docker_disabled running-IsConsistent

-- docker is not disabled while php needs it
needed : (disable working "docker" both).1 ≡ some (needed_by "php")
unfolding disable disable_found dependent is_enabled lookup
needed = refl

abbrev unwritable : Env
unwritable = record working { save_ok = false }

docker_found : lookup "docker" two ≡ some docker
unfolding lookup
docker_found = refl

docker_on : is_enabled running "docker" ≡ true
unfolding is_enabled lookup
docker_on = refl

docker_free : dependent running "docker" two ≡ none
unfolding dependent is_enabled lookup
docker_free = refl

disable_unsaved_example :
    ((disable unwritable "docker" running).1 ≡ some store_failed)
    × (is_enabled (disable unwritable "docker" running).0 "docker" ≡ true)
    × (is_some (lookup "docker" (disable unwritable "docker" running).0.disabled) ≡ true)
disable_unsaved_example =
    disable_unsaved unwritable "docker" docker running docker_found docker_on docker_free refl

-- `fresh` after `SetSidebarVisible("php", true)`
abbrev shown : Manager
shown = record fresh {
  states = ("php", record { enabled = some true; show_in_sidebar = some true }) ∷ [];
}

php_shown : set_sidebar_visible working "php" true fresh ≡ ok shown
unfolding set_sidebar_visible lookup insert
php_shown = refl

-- It was not enabled before, and is now, though the guard's map is the same.
shown_enabled : (is_enabled fresh "php" ≡ false) × (is_enabled shown "php" ≡ true)
unfolding is_enabled lookup
shown_enabled = (refl, refl)

-- `fresh` after `InitAll`: docker is one of the plugins that start disabled.
abbrev booted : Manager
booted = record {
  plugins = two;
  order = "docker" ∷ "php" ∷ [];
  disabled = ("docker", true) ∷ [];
  states =
      ("php", record { enabled = some true; show_in_sidebar = some true })
      ∷ ("docker", record { enabled = some false; show_in_sidebar = some true })
      ∷ [];
  calls = init "docker" ∷ init "php" ∷ [];
}

fresh_boots : init_all leave working fresh ≡ ok booted
unfolding init_all init_ordered init_loop init_one seed_default_states seed_rows disabled_by_default
    is_enabled topo_sort drain_edges finish drain release ready build add_node add_deps add_edge
    get_deg get_adj lookup insert
fresh_boots = refl

init_all-IsGuarded_example : IsGuarded booted
init_all-IsGuarded_example =
    init_all-IsGuarded leave leave-Permutes working fresh booted two-IsKeyed refl fresh_boots

-- A handler that adds one and panics, and one for all events that doubles.
abbrev subscriptions : List (String × Handler ℕ)
subscriptions = ("*", λ e w. (w * 2, false)) ∷ ("host.created", λ e w. (w + 1, true)) ∷ []

abbrev created : Event
created = record { event_type = "host.created"; payload = []; source = "core"; time = 0 }

-- The wildcard comes last although it subscribed first, and after the panic.
published :
    publish ℕ 7 created (subscribe_all ℕ subscriptions (new_event_bus ℕ)) 20
    ≡ (42, record created { time = 7 } ∷ [])
unfolding publish subscribe_all subscribe new_event_bus collect get_handlers dispatch lookup insert
published = refl

publish-subscribe_all_example :
    (
      (publish ℕ 7 created (subscribe_all ℕ subscriptions (new_event_bus ℕ)) 20).0,
      length (publish ℕ 7 created (subscribe_all ℕ subscriptions (new_event_bus ℕ)) 20).1,
    )
    ≡ foldl
        (run_handler ℕ (record created { time = 7 }))
        (20, 0)
        (of_type ℕ "host.created" subscriptions ++ of_type ℕ "*" subscriptions)
publish-subscribe_all_example = publish-subscribe_all ℕ 7 created subscriptions 20

docker_booted : lookup "docker" booted.plugins ≡ some docker
unfolding lookup
docker_booted = refl

-- A request to docker, which starts disabled, and the management route that enables it.
is_blocked-init_all_example :
    is_blocked booted ("api" ∷ "plugins" ∷ "docker" ∷ "containers" ∷ [])
    ≡ (not false && not (is_enabled booted "docker"))
is_blocked-init_all_example =
    is_blocked-init_all leave leave-Permutes working fresh booted two-IsKeyed refl fresh_boots
      "docker" docker ("containers" ∷ []) docker_booted refl refl

docker_blocked : is_blocked booted ("api" ∷ "plugins" ∷ "docker" ∷ "containers" ∷ []) ≡ true
unfolding is_blocked extract_plugin_id lookup
docker_blocked = refl

management_passes : is_blocked booted ("api" ∷ "plugins" ∷ "docker" ∷ "enable" ∷ []) ≡ false
unfolding is_blocked extract_plugin_id lookup
management_passes = refl
