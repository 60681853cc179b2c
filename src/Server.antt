-- ===== src/Server.antt =====
-- The package `server`: the processes of one host, and what they report.
pub mod Supervisor
pub mod Summary
pub mod Ingestion
pub mod Hostexec
pub mod Watcher
