-- ===== src/Swarm.antt =====
-- src/swarm.rs: who holds which blob, and the download of a blob from its holders.
pub mod Blobs
pub mod Negotiation
pub mod Holders
pub mod Fetch
pub mod Churn
pub mod Poison
pub mod Store
pub mod Share
