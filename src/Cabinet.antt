-- ===== src/Cabinet.antt =====
-- The package server/cabinet.
pub mod Types
pub mod Service
pub mod Election
pub mod Consensus
pub mod Dock
pub mod Heartbeat
pub mod Conns
