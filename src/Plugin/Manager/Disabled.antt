-- ===== src/Plugin/Manager/Disabled.antt =====
-- `Disable`: the consistency of the manager, and a database that refuses the write.
use text.Mathlib.TextPositions.{eq_refl}
use pdai_server_panel.Common.{
  String, true, false, Option, none, some, List, [], ◌∷◌, ◌++◌, ◌≡◌, refl, sym, ap, ◌∙◌, arith,
  if◌then◌else◌, ◌=ˢ◌, eq_iff, lookup, insert, lookup-insert, is_some, All, any, Bool-cases, inl,
  inr, ◌⊎◌,
}
use pdai_server_panel.Plugin.Topo.{Metadata, Plugins}
use pdai_server_panel.Plugin.Manager.{
  Manager, Env, PluginState, Call, store_failed, is_enabled, row_enabled, assign_enabled, set_state,
  dependent, stopped, after_save, disable_found, disable,
}
use pdai_server_panel.Plugin.Manager.Invariant.{IsConsistent}

row_false : (o : Option PluginState) → row_enabled (some (assign_enabled false o)) ≡ false
row_false none = refl
row_false (some s) = refl

-- The manager that `Disable` leaves.
abbrev pub halted : String → Manager → Manager
halted id m = record m {
  states = insert id (assign_enabled false (lookup id m.states)) m.states;
  disabled = insert id true m.disabled;
  calls = m.calls ++ Call.stop id ∷ [];
}

enabled-halted :
    (id j : String) (m : Manager)
    → is_enabled (halted id m) j ≡ (if id =ˢ j then false else is_enabled m j)
unfolding is_enabled
enabled-halted id j m = rw lookup-insert (ground (arith, row_false (lookup id m.states)))

dependent-none :
    (m : Manager) (id : String) (ps : Plugins) (j : String) (q : Metadata)
    → dependent m id ps ≡ none
    → lookup j ps ≡ some q
    → (id =ˢ j) ≡ false
    → is_enabled m j ≡ true
    → any (λ d. d =ˢ id) q.dependencies ≡ false
unfolding dependent lookup
dependent-none m id [] j q h k n on = cc
dependent-none m id ((other, p) ∷ ps) j q h k n on =
    ground
      (arith, dependent-none m id ps j q, eq_iff other j, eq_iff other id, eq_iff id j, eq_refl id)

still_supported :
    (id : String) (m : Manager) (ds : List String)
    → any (λ d. d =ˢ id) ds ≡ false
    → All (λ d. is_enabled m d ≡ true) ds
    → All (λ d. is_enabled (halted id m) d ≡ true) ds
still_supported id m [] k h = tt
still_supported id m (d ∷ ds) k (h, hs) = (
  rw enabled-halted (ground (arith, eq_iff id d, eq_iff d id)),
  still_supported id m ds (ground arith) hs,
)

halted-IsConsistent :
    (id : String) (m : Manager)
    → dependent m id m.plugins ≡ none
    → IsConsistent m
    → IsConsistent (halted id m)
halted-IsConsistent id m free c = record {
  guarded = λ j q h. rw (lookup-insert, enabled-halted) (ground (arith, c.guarded j q h));
  supported = λ j q h on. elim (Bool-cases (id =ˢ j)) [
    | inl e ↦
        let off : is_enabled (halted id m) j ≡ false = rw enabled-halted (rw e) in cc (on, off)
    | inr e ↦
        let before : is_enabled m j ≡ true = sym (rw enabled-halted (rw e)) ∙ on in
        still_supported id m q.dependencies (dependent-none m id m.plugins j q free h e before)
          (c.supported j q h before)
  ];
}

already_off :
    (id j : String) (m : Manager)
    → is_enabled m id ≡ false
    → is_enabled m j ≡ (if id =ˢ j then false else is_enabled m j)
already_off id j m off = elim (Bool-cases (id =ˢ j)) [
  | inl e ↦ rw e (ap (is_enabled m) (sym ((eq_iff id j).0 e)) ∙ off)
  | inr e ↦ rw e
]

saved-halted :
    (env : Env) (id : String) (m : Manager)
    → (after_save (stopped id m) (set_state env id false (stopped id m))).1 ≡ none
    → (after_save (stopped id m) (set_state env id false (stopped id m))).0 ≡ halted id m
unfolding after_save set_state
saved-halted env id m h = ground arith

disable_found-cases :
    (env : Env) (id : String) (p : Metadata) (m : Manager)
    → (disable_found env id (some p) m).1 ≡ none
    → (((disable_found env id (some p) m).0 ≡ m) × (is_enabled m id ≡ false))
      ⊎ ((dependent m id m.plugins ≡ none) × ((disable_found env id (some p) m).0 ≡ halted id m))
unfolding disable_found
disable_found-cases env id p m h = ground (arith, saved-halted env id m)

disable_absent :
    (env : Env) (id : String) (m : Manager) → (disable_found env id none m).1 ≡ none → ⊥
unfolding disable_found
disable_absent env id m h = cc

-- When `Disable` succeeds the plugin is not enabled, no other plugin has changed, and the manager
-- is consistent if it was.
pub disable-IsConsistent :
    (env : Env) (id : String) (m : Manager)
    → (disable env id m).1 ≡ none
    → IsConsistent m
    → IsConsistent (disable env id m).0
      × ((j : String)
          → is_enabled (disable env id m).0 j ≡ (if id =ˢ j then false else is_enabled m j))
unfolding disable
disable-IsConsistent env id m h c = go (lookup id m.plugins) h
  where
    go :
        (o : Option Metadata)
        → (disable_found env id o m).1 ≡ none
        → IsConsistent (disable_found env id o m).0
          × ((j : String)
              → is_enabled (disable_found env id o m).0 j
                ≡ (if id =ˢ j then false else is_enabled m j))
    go none k = absurd (disable_absent env id m k)
    go (some p) k = elim (disable_found-cases env id p m k) [
      | inl (r, off) ↦ rw r (c, λ j. already_off id j m off)
      | inr (free, r) ↦ rw r (halted-IsConsistent id m free c, λ j. enabled-halted id j m)
    ]

-- When the database refuses the write of a `Disable` of a registered and enabled plugin that no
-- other enabled plugin depends on, the error is returned, the plugin is still enabled, and the guard blocks it.
pub disable_unsaved :
    (env : Env) (id : String) (p : Metadata) (m : Manager)
    → lookup id m.plugins ≡ some p
    → is_enabled m id ≡ true
    → dependent m id m.plugins ≡ none
    → env.save_ok ≡ false
    → ((disable env id m).1 ≡ some store_failed)
      × (is_enabled (disable env id m).0 id ≡ true)
      × (is_some (lookup id (disable env id m).0.disabled) ≡ true)
unfolding disable disable_found after_save set_state is_enabled
disable_unsaved env id p m found on free unsaved =
    ground (arith, lookup-insert id id true m.disabled, eq_refl id)
