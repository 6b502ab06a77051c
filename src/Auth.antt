-- ===== src/Auth.antt =====
-- internal/auth: who may call the panel, and how often.
pub mod RateLimit
