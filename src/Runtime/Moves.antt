-- ===== src/Runtime/Moves.antt =====
-- Interleavings of the controller's transactions, and what no interleaving can undo.
pub mod Defs
pub mod Untouched
pub mod Progress
pub mod UniqueIds
pub mod Attempts
pub mod Contexts
pub mod Leases
pub mod Fence
pub mod Accepted
pub mod Rulings
