-- ===== src/Smr.antt =====
-- The package server/cabinet/smr.
pub mod Priority
pub mod State
pub mod Manager
