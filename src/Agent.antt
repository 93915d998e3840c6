-- ===== src/Agent.antt =====
-- packages/agent/src: what the coding agent may do without asking: bashPolicy.ts, permissions.ts and
-- sandbox/contain.ts.
pub mod Shell
pub mod Paths
pub mod Specs
pub mod Flags
pub mod Glob
pub mod ReadOnly
pub mod Gate
mod Tests
