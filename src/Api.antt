-- ===== src/Api.antt =====
-- api.go, in modules for the checks on a task, the routes, and what the routes do to the store and
-- the schedule.
pub mod Validate
pub mod Routes
pub mod Accepted
pub mod Refused
pub mod Removed
pub mod Updated
pub mod Ended
