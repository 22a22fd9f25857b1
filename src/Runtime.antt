-- ===== src/Runtime.antt =====
-- The transactions of backend/src/managed_agents_app/cma_controller/repository.py and
-- runtime_repository.py, in the children by theme.
pub mod Transaction
pub mod Identity
pub mod Admission
pub mod Lease
pub mod Review
pub mod Tasks
pub mod Requests
pub mod Moves
pub mod Retry
