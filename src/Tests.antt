-- ===== src/Tests.antt =====
-- Runs of the model at concrete inputs, and each theorem at an input that meets its hypotheses.
mod AuthTests
mod Hosts
mod HostTests
mod CaddyTests
mod NotifyTests
mod PluginTests
mod QueueTests
