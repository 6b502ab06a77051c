-- ===== src/Caddy.antt =====
-- internal/caddy: what may be written into a Caddyfile, and how it is made, written and loaded.
pub mod Domain
pub mod FileName
pub mod Directives
pub mod SiteBlock
pub mod Render
pub mod Upstream
pub mod ConfigFile
pub mod Reload
