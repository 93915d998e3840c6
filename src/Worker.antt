-- ===== src/Worker.antt =====
-- packages/node/src/worker.ts: a worker that takes jobs from the server.
pub mod Checkpoint
pub mod Jobs
