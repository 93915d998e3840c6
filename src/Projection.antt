-- ===== src/Projection.antt =====
-- packages/node/src/projection-runner.ts: how a projection's events are read, reduced and saved.
pub mod Envelope
pub mod Batch
pub mod External
pub mod Runner
pub mod Stream
pub mod Lease
