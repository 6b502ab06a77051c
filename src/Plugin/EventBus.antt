-- ===== src/Plugin/EventBus.antt =====
-- internal/plugin/eventbus.go. A handler is code of a plugin: it changes the world, a `W`, and may
-- panic. The lock is not held while handlers run; that they may subscribe and publish themselves
-- is left out.
pub mod Dispatch
use pdai_server_panel.Common.{
  ℕ, String, Bool, true, false, Option, none, some, List, [], ◌∷◌, ◌++◌, if◌then◌else◌, lookup,
  insert, ◌==◌,
}

-- The payload is the publisher's. `time` is 0 for the zero time.
pub record Event : Type 0 where
  pub event_type : String
  pub payload : List (String × String)
  pub source : String
  pub time : ℕ

abbrev pub stamped : ℕ → Event → Event
stamped now event = if event.time == 0 then record event { time = now } else event

module _ (W : Type 0) where
  abbrev pub Handler : Type 0
  Handler = Event → W → W × Bool

  pub record EventBus : Type 0 where
    pub handlers : List (String × List Handler)

  unfoldable pub new_event_bus : EventBus
  new_event_bus = record { handlers = [] }

  abbrev pub handlers_of : Option (List Handler) → List Handler
  handlers_of none = []
  handlers_of (some hs) = hs

  -- eb.handlers[eventType]
  unfoldable pub get_handlers : String → EventBus → List Handler
  get_handlers event_type eb = handlers_of (lookup event_type eb.handlers)

  unfoldable pub subscribe : String → Handler → EventBus → EventBus
  subscribe event_type handler eb = record eb {
    handlers = insert event_type (get_handlers event_type eb ++ handler ∷ []) eb.handlers;
  }

  -- The handlers that `Publish` collects.
  unfoldable pub collect : Event → EventBus → List Handler
  collect event eb = get_handlers event.event_type eb ++ get_handlers "*" eb

  -- The loop over them. Its second result has one entry for each panic that is logged.
  unfoldable pub dispatch : Event → List Handler → W → W × List Event
  dispatch event [] w = (w, [])
  dispatch event (h ∷ hs) w =
      let (w1, panicked) = h event w in
      let (w2, logged) = dispatch event hs w1 in (w2, if panicked then event ∷ logged else logged)

  unfoldable pub publish : ℕ → Event → EventBus → W → W × List Event
  publish now event eb w = let e = stamped now event in dispatch e (collect e eb) w
