-- ===== src/Plugin.antt =====
-- internal/plugin: the registry of plugins, the order in which they are loaded, the guard and the event bus.
pub mod Topo
pub mod Guard
pub mod Manager
pub mod EventBus
