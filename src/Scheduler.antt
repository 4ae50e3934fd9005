-- ===== src/Scheduler.antt =====
-- internal/scheduler/engine.go: the scheduling engine over the in-memory store and queue.
pub mod Engine
pub mod Leases
pub mod Sweep
pub mod Progress
pub mod Report
pub mod Lifecycle
pub mod Submit
pub mod Placement
pub mod Preemption
pub mod Assign
pub mod Poll
pub mod Workers
