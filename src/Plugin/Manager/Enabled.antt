-- ===== src/Plugin/Manager/Enabled.antt =====
-- `Enable` and the consistency of the manager.
use mathlib.Core.Path.{subst}
use pdai_server_panel.Common.{
  String, true, Option, none, some, List, [], ◌∷◌, ◌++◌, ◌≡◌, refl, sym, ap, ◌∙◌, arith,
  if◌then◌else◌, ◌=ˢ◌, eq_iff, lookup, insert, delete, lookup-insert, lookup-delete, All, ok,
  Bool-cases, Option-cases, inl, inr, ◌⊎◌,
}
use pdai_server_panel.Plugin.Topo.{Metadata}
use pdai_server_panel.Plugin.Manager.{
  Manager, Env, PluginState, Call, is_enabled, row_enabled, assign_enabled, set_state,
  missing_dependency, enable_ready, enable_found, enable,
}
use pdai_server_panel.Plugin.Manager.Invariant.{IsConsistent}

missing_none :
    (m : Manager) (deps : List String)
    → missing_dependency m deps ≡ none
    → All (λ d. is_enabled m d ≡ true) deps
unfolding missing_dependency
missing_none m [] h = tt
missing_none m (d ∷ ds) h = (ground arith, missing_none m ds (ground arith))

row_true : (o : Option PluginState) → row_enabled (some (assign_enabled true o)) ≡ true
row_true none = refl
row_true (some s) = refl

-- The manager that `Enable` leaves.
abbrev pub started : String → Manager → Manager
started id m = record m {
  states = insert id (assign_enabled true (lookup id m.states)) m.states;
  disabled = delete id m.disabled;
  calls = m.calls ++ Call.start id ∷ [];
}

enabled-started :
    (id j : String) (m : Manager)
    → is_enabled (started id m) j ≡ (if id =ˢ j then true else is_enabled m j)
unfolding is_enabled
enabled-started id j m = rw lookup-insert (ground (arith, row_true (lookup id m.states)))

still_enabled :
    (id : String) (m : Manager) (ds : List String)
    → All (λ d. is_enabled m d ≡ true) ds
    → All (λ d. is_enabled (started id m) d ≡ true) ds
still_enabled id m [] h = tt
still_enabled id m (d ∷ ds) (h, hs) = (rw enabled-started (ground arith), still_enabled id m ds hs)

started-IsConsistent :
    (id : String) (p : Metadata) (m : Manager)
    → lookup id m.plugins ≡ some p
    → All (λ d. is_enabled m d ≡ true) p.dependencies
    → IsConsistent m
    → IsConsistent (started id m)
started-IsConsistent id p m found deps c = record {
  guarded = λ j q h. rw (lookup-delete, enabled-started) (ground (arith, c.guarded j q h));
  supported = λ j q h on. elim (Bool-cases (id =ˢ j)) [
    | inl e ↦
        let i : id ≡ j = (eq_iff id j).0 e in
        let k : some p ≡ some q = sym found ∙ rw i h in
        let same : p ≡ q = ground arith in
        still_enabled id m q.dependencies
          (subst (λ (r : Metadata). All (λ d. is_enabled m d ≡ true) r.dependencies) same deps)
    | inr e ↦
        still_enabled id m q.dependencies (c.supported j q h (sym (rw enabled-started (rw e)) ∙ on))
  ];
}

set_state-started :
    (env : Env) (id : String) (m m' : Manager)
    → enable_ready env id (set_state env id true m) ≡ ok m'
    → m' ≡ started id m
unfolding enable_ready set_state
set_state-started env id m m' h = ground arith

enable_found-cases :
    (env : Env) (id : String) (p : Metadata) (m m' : Manager)
    → enable_found env id (some p) m ≡ ok m'
    → ((m' ≡ m) × (is_enabled m id ≡ true))
      ⊎ ((missing_dependency m p.dependencies ≡ none) × (m' ≡ started id m))
unfolding enable_found
enable_found-cases env id p m m' h = elim (Bool-cases (is_enabled m id)) [
  | inl e ↦ inl (ground arith)
  | inr e ↦ elim (Option-cases (missing_dependency m p.dependencies)) [
    | inl k ↦ inr (k, set_state-started env id m m' (ground arith))
    | inr (d, k) ↦ absurd (ground arith)
  ]
]

enable_absent : (env : Env) (id : String) (m m' : Manager) → enable_found env id none m ≡ ok m' → ⊥
unfolding enable_found
enable_absent env id m m' h = cc

already_on :
    (id j : String) (m : Manager)
    → is_enabled m id ≡ true
    → is_enabled m j ≡ (if id =ˢ j then true else is_enabled m j)
already_on id j m on = elim (Bool-cases (id =ˢ j)) [
  | inl e ↦ rw e (ap (is_enabled m) (sym ((eq_iff id j).0 e)) ∙ on)
  | inr e ↦ rw e
]

-- When `Enable` succeeds the plugin is enabled, no other plugin has changed, and the manager is
-- consistent if it was.
pub enable-IsConsistent :
    (env : Env) (id : String) (m m' : Manager)
    → enable env id m ≡ ok m'
    → IsConsistent m
    → IsConsistent m'
      × ((j : String) → is_enabled m' j ≡ (if id =ˢ j then true else is_enabled m j))
unfolding enable
enable-IsConsistent env id m m' h c = elim (Option-cases (lookup id m.plugins)) [
  | inl e ↦ absurd (enable_absent env id m m' (rw e at h))
  | inr (p, e) ↦ elim (enable_found-cases env id p m m' (rw e at h)) [
    | inl (k, on) ↦ rw k (c, λ j. already_on id j m on)
    | inr (k, r) ↦ rw r (
      started-IsConsistent id p m e (missing_none m p.dependencies k) c,
      λ j. enabled-started id j m,
    )
  ]
]
