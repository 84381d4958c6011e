-- ===== src/Server.antt =====
-- server/main.go, server/controllers and server/models: what a node and the gateway do around the
-- consensus.
pub mod Customer
pub mod Executor
pub mod Controllers
pub mod Database
mod Router
mod Channel
pub mod Gateway
pub mod Node
mod Start
