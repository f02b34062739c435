-- ===== src/Snapshot.antt =====
-- src/snapshot.rs: what a provider keeps of each group. The wire protocol is in `Snapshot.Transfer`
-- and the requester in `Snapshot.Requester`.
pub mod Records
pub mod Provider
pub mod Contents
pub mod Recent
pub mod Transfer
pub mod Framing
pub mod Requester
pub mod Decisions
pub mod Session
pub mod Joining
