-- ===== src/Engine.antt =====
-- taskrunner/scheduler/engine.py: `SchedulerEngine` over the queue, the store and the event bus.
-- A coroutine runs to its next suspension in one step. Those that suspend in the middle of their
-- work, `reserve_task` in its thread, are made of steps between which others run.
pub mod State
pub mod Tasks
pub mod Submitting
pub mod Metrics
pub mod Services
pub mod Workers
pub mod Reserving
pub mod Reports
pub mod Alive
pub mod Scaling
pub mod Outcomes
pub mod Batches
pub mod Tests
