-- ===== src/Bootstrap.antt =====
-- src/bin/xaeroflux_bootstrap.rs: a node that turns the events of groups into raw events for an Iggy
-- stream.
pub mod Texts
pub mod Records
pub mod Scope
pub mod Convert
pub mod Iggy
pub mod Serve
pub mod Routing
pub mod Counters
pub mod Panics
pub mod Settings
pub mod Launch
pub mod Reports
