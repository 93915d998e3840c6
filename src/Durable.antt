-- ===== src/Durable.antt =====
-- packages/node/src/internal/context.ts, internal/errors.ts and step.ts: durable steps, their ids
-- and their memoization.
pub mod Text
pub mod StepId
pub mod Context
pub mod Step
pub mod Compensate
pub mod Program
pub mod Legacy
pub mod Distinct
pub mod Parallel
mod Tests
