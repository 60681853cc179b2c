-- ===== src/Worker.antt =====
-- The package `worker`: the allocation of server processes for the orchestrator.
pub mod Allocator
