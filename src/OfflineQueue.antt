-- ===== src/OfflineQueue.antt =====
-- packages/browser/src/queue: the offline write queue.
pub mod Types
pub mod Db
pub mod Queue
pub mod State
pub mod Enqueue
pub mod Drain
pub mod Letters
pub mod System
mod Tests
