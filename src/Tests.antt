-- ===== src/Tests.antt =====
-- Runs of the definitions on concrete inputs, and the theorems at such inputs.
mod Samples
mod QueueTests
mod StoreTests
mod PolicyTests
mod SchedulerTests
mod PlannerTests
mod LimitsTests
mod AuthTests
mod ApiTests
mod StreamTests
mod RedisTests
mod AssignTests
mod RouterTests
