-- ===== src/Core.antt =====
-- The package `core`: identities, grants, leases, lobbies, intents, preparations and results.
pub mod Errors
pub mod Grant
pub mod Lease
pub mod Lobby
pub mod Account
pub mod ResultStore
pub mod Intent
pub mod Facts
pub mod Scenario
pub mod Preparation
