-- ===== src/Threads/Moves.antt =====
-- Interleavings of the transactions on threads, by any caller, and what none of them can undo.
pub mod Defs
pub mod Kept
pub mod Stable
pub mod Races
pub mod Checks
pub mod Claims
