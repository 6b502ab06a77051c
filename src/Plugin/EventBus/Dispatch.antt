-- ===== src/Plugin/EventBus/Dispatch.antt =====
-- Which handlers an event reaches, and in which order.
use mathlib.Core.List.{append_assoc, append-nil, foldl}
use pdai_server_panel.Common.{
  ℕ, ◌+◌, length, String, List, [], ◌∷◌, ◌++◌, ◌≡◌, ◌∙◌, ap, sym, refl, arith, eq_iff,
  if◌then◌else◌, lookup, lookup-insert, ◌=ˢ◌, Bool-cases, inl, inr,
}
use pdai_server_panel.Plugin.EventBus.{
  Event, Handler, EventBus, new_event_bus, get_handlers, subscribe, collect, dispatch, publish,
  stamped,
}

module _ (W : Type 0) where
  -- `Subscribe` for each pair, in their order.
  unfoldable pub subscribe_all : List (String × Handler W) → EventBus W → EventBus W
  subscribe_all [] eb = eb
  subscribe_all ((ty, h) ∷ subs) eb = subscribe_all subs (subscribe W ty h eb)

  -- The handlers of the pairs of one type.
  unfoldable pub of_type : String → List (String × Handler W) → List (Handler W)
  of_type ty [] = []
  of_type ty ((t, h) ∷ subs) = let rest = of_type ty subs in if t =ˢ ty then h ∷ rest else rest

  get_handlers-subscribe :
      (ty t : String) (h : Handler W) (eb : EventBus W)
      → get_handlers W ty (subscribe W t h eb)
        ≡ (if t =ˢ ty then get_handlers W ty eb ++ h ∷ [] else get_handlers W ty eb)
  unfolding subscribe get_handlers
  get_handlers-subscribe ty t h eb = elim (Bool-cases (t =ˢ ty)) [
    | inl e ↦ let same : t ≡ ty = (eq_iff t ty).0 e in rw (lookup-insert, e) (rw same refl)
    | inr e ↦ rw (lookup-insert, e) refl
  ]

  get_handlers-subscribe_all :
      (ty : String) (subs : List (String × Handler W)) (eb : EventBus W)
      → get_handlers W ty (subscribe_all subs eb) ≡ get_handlers W ty eb ++ of_type ty subs
  unfolding subscribe_all of_type
  get_handlers-subscribe_all ty [] eb = sym (append-nil (get_handlers W ty eb))
  get_handlers-subscribe_all ty ((t, h) ∷ subs) eb =
      get_handlers-subscribe_all ty subs (subscribe W t h eb) ∙ (elim (Bool-cases (t =ˢ ty)) [
        | inl e ↦
            rw (get_handlers-subscribe ty t h eb, e)
              (append_assoc (get_handlers W ty eb) (h ∷ []) (of_type ty subs))
        | inr e ↦ rw (get_handlers-subscribe ty t h eb, e) refl
      ])

  collected :
      (ty : String) (subs : List (String × Handler W))
      → get_handlers W ty (subscribe_all subs (new_event_bus W)) ≡ of_type ty subs
  unfolding get_handlers new_event_bus lookup
  collected ty subs = get_handlers-subscribe_all ty subs (new_event_bus W)

  -- One handler runs, and its panic is counted.
  abbrev pub run_handler : Event → W × ℕ → Handler W → W × ℕ
  run_handler e (w, n) h = let (w1, panicked) = h e w in (w1, (if panicked then 1 else 0) + n)

  dispatch-foldl :
      (e : Event) (hs : List (Handler W)) (w : W) (n : ℕ)
      → ((dispatch W e hs w).0, length (dispatch W e hs w).1 + n) ≡ foldl (run_handler e) (w, n) hs
  unfolding dispatch
  dispatch-foldl e [] w n = ap (λ k. (w, k)) (omega arith)
  dispatch-foldl e (h ∷ hs) w n =
      ap (λ k. ((dispatch W e hs (h e w).0).0, k)) (ground arith)
      ∙ dispatch-foldl e hs (h e w).0 ((if (h e w).1 then 1 else 0) + n)

  -- On a bus on which nothing but the given subscriptions has happened, an event runs each handler
  -- of its type once, in the order in which they subscribed, and then each of `*` in theirs, every
  -- one in the world that the one before has left, also after a panic; as many panics are logged as
  -- handlers panic, and an event without a time carries the time of the call.
  pub publish-subscribe_all :
      (now : ℕ) (event : Event) (subs : List (String × Handler W)) (w : W)
      → (
        (publish W now event (subscribe_all subs (new_event_bus W)) w).0,
        length (publish W now event (subscribe_all subs (new_event_bus W)) w).1,
      )
        ≡ foldl
            (run_handler (stamped now event))
            (w, 0)
            (of_type event.event_type subs ++ of_type "*" subs)
  unfolding publish collect
  publish-subscribe_all now event subs w =
      let same : (stamped now event).event_type ≡ event.event_type = ground arith in
      let e = stamped now event in
      rw (same, collected event.event_type subs, collected "*" subs)
        (ap (λ k. ((dispatch W e (of_type event.event_type subs ++ of_type "*" subs) w).0, k))
            (omega arith)
          ∙ dispatch-foldl e (of_type event.event_type subs ++ of_type "*" subs) w 0)
