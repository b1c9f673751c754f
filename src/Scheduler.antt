-- ===== src/Scheduler.antt =====
-- scheduler.go, in modules for its state, its plan of next runs, and one run of a task.
pub mod State
pub mod Plan
pub mod Run
pub mod Keyed
pub mod Overlap
pub mod Tick
