-- ===== src/Scheduler.antt =====
-- backend/src/managed_agents_app/cma_controller/scheduler.py: one reconciliation step of a context.
pub mod Events
pub mod World
pub mod Finish
pub mod Confirm
pub mod Cancel
pub mod Policy
pub mod Active
pub mod Run
pub mod Keeps
