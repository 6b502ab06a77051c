-- ===== src/Host.antt =====
-- internal/service/host.go: the hosts, their domains, and what a request may change.
pub mod Request
pub mod Claim
pub mod Checks
pub mod Rows
pub mod Update
pub mod Create
pub mod Clone
pub mod Apply
pub mod Import
pub mod Run
