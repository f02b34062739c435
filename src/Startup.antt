-- ===== src/Startup.antt =====
-- Starting a node: the configuration, the key file and `XaeroFlux::from_config` of src/lib.rs.
pub mod Files
pub mod Boot
pub mod Config
pub mod Identity
pub mod Start
pub mod Started
pub mod Succeeds
pub mod Restart
pub mod SharedKey
pub mod Settings
