-- ===== src/Notify.antt =====
-- internal/notify: messages to the outside.
pub mod Ssrf
